-- ===== src/Path.antt =====
-- src/path.rs: filters that consume the request's path segment by segment.
pub mod Segments
pub mod Consume
pub mod Sanitize
pub mod Raises
use myth.Prelude.{
  ℕ, ◌+◌, ◌≡◌, Bool, true, false, Option, none, some, List, [], ◌∷◌, ◌++◌, Result, ok, err, ◌==◌,
  if◌then◌else◌, ◌||◌, ◌>>=◌, unwrap_or, map_err,
}
use mathlib.Core.Option
use myth.Text.{
  Str, str, len, find, slice_from, slice_to, str_eq, contains, starts_with, ends_with, split,
}
use myth.Http.{Http}
use myth.Request.{
  Request, RequestState, full_path, current_path, previous_path, incr_current_path_index,
  end_current_path_index,
}
use myth.Errors.{BoxedFilterError, box, forward_param, redirect, recover_type}
use myth.Outcome.{Outcome, success, error, forward, RequestOutcome}
use myth.Forward.{Forwarding, not_found}
use myth.Future.{poll_ready, async_fn}
use myth.Tuple.{One, from_inner, into_inner}
use myth.Filter.{Filter}
use myth.Filter.Ready.{ready_filter, finish}
use myth.Filter.Handle.{handle_filter}
use myth.Filter.RecoverForward.{recover_forward_filter}
use myth.Basic.{uri}

-- `current_path.find('/').unwrap_or(current_path.len())`
unfoldable pub slash_index : Str → ℕ
unfolding find len
slash_index s = unwrap_or (len s) (find b'/' s)

after_slash : Str → Option (Option (Str × ℕ))
after_slash [] = some none
after_slash (c ∷ s) = do
  current_path ← slice_from (b'/' ∷ c ∷ s) 1
  found ← slice_to current_path (slash_index current_path)
  some (some (found, slash_index current_path + 1))

-- `segment`, from the current path on. The outer `none` is a panic, the inner one a `None`.
unfoldable pub segment_of : Str → Option (Option (Str × ℕ))
unfolding after_slash
segment_of [] = some none
segment_of (c ∷ s) =
    if c == b'/'
    then after_slash s
    else Option.map (λ found. some (found, slash_index (c ∷ s)))
        (slice_to (c ∷ s) (slash_index (c ∷ s)))

module _ {H : Http} where
  unfoldable pub segment : Request H → RequestState H → Option (Option (Str × ℕ))
  unfolding segment_of current_path
  segment request st = do path ← current_path st request; segment_of path

  -- A `RequestState` is changed in place, so it is returned with the outcome.
  pub decoded_outcome :
      {S : Type 0}
      → RequestState H
      → Option (Str × ℕ)
      → (Str → Option S)
      → RequestState H × Outcome H (Unit {0}) S
  decoded_outcome st none func = (st, forward tt not_found)
  decoded_outcome st (some (found, length)) func = elim (func (H.decode_utf8_lossy found)) [
    | none ↦ (st, forward tt not_found)
    | some s ↦ (incr_current_path_index length st, success s)
  ]

  unfoldable pub decoded_segment :
      {S : Type 0}
      → (Str → Option S)
      → Request H
      → RequestState H
      → Option (RequestState H × Outcome H (Unit {0}) S)
  unfolding segment decoded_outcome incr_current_path_index
  decoded_segment func request st = do
    found ← segment request st
    some (decoded_outcome st found func)

  unfoldable pub path : Filter H (Unit {0}) (One Str)
  unfolding uri handle_filter
  path = handle_filter uri (async_fn (λ u. some (ok (H.path (into_inner u)))))

  -- `ParamStr`
  unfoldable pub param_str : Filter H (Unit {0}) (One Str)
  unfolding poll_ready decoded_segment finish
  param_str = record {
    Future = Option (RequestOutcome H (Unit {0}) (One Str));
    execute =
        λ request st input. finish (decoded_segment (λ found. some (from_inner found)) request st);
    poll = poll_ready;
  }

  -- The function of `param`'s `handle`, with `T::from_str`.
  abbrev pub parse_param : {T : Type 0} → (Str → Option T) → One Str → Result T (BoxedFilterError H)
  parse_param from_str found = elim (from_str (into_inner found)) [
    | none ↦ err (box forward_param tt)
    | some t ↦ ok t
  ]

  unfoldable pub param : {T : Type 0} → (Str → Option T) → Filter H (Unit {0}) (One T)
  unfolding param_str handle_filter recover_forward_filter
  param from_str =
      recover_forward_filter
        (handle_filter param_str (async_fn (λ found. some (parse_param from_str found))))
        (async_fn (λ e. some (ok not_found))) (recover_type forward_param)

  unfoldable pub literal_filter : Str → Filter H (Unit {0}) (Unit {0})
  unfolding ready_filter decoded_segment str_eq
  literal_filter value =
      ready_filter (decoded_segment (λ found. if str_eq value found then some tt else none))

  -- `none` is a panic of one of the two assertions.
  unfoldable pub literal : Str → Option (Filter H (Unit {0}) (Unit {0}))
  unfolding literal_filter
  literal value =
      if str_eq value [] || contains b'/' value then none else some (literal_filter value)

  pub end_outcome :
      Request H → RequestState H → Option (RequestState H × Outcome H (Unit {0}) (Unit {0}))
  end_outcome request st =
      if str_eq (full_path request) [] || str_eq (full_path request) (str "/")
      then some (st, success tt)
      else do
        path ← current_path st request
        previous ← previous_path st request
        some (
            if str_eq path []
            then (st, success tt)
            else if str_eq path (str "/")
            then (st, error (box redirect (record { location = previous })))
            else (st, forward tt not_found))

  unfoldable pub end : Filter H (Unit {0}) (Unit {0})
  unfolding ready_filter end_outcome current_path previous_path str_eq
  end = ready_filter end_outcome

  pub tail_outcome : Request H → RequestState H → Option (RequestOutcome H (Unit {0}) (One Str))
  tail_outcome request st = do
    rest ← current_path st request
    some (record {
      request_state = end_current_path_index request st;
      outcome = success (from_inner rest);
    })

  -- `Tail`
  unfoldable pub tail : Filter H (Unit {0}) (One Str)
  unfolding poll_ready tail_outcome current_path end_current_path_index
  tail = record {
    Future = Option (RequestOutcome H (Unit {0}) (One Str));
    execute = λ request st input. tail_outcome request st;
    poll = poll_ready;
  }

-- `PathBuf::push`, where `/` separates: an absolute path replaces what is there.
unfoldable pub push : Str → Str → Str
unfolding starts_with ends_with
push buf seg =
    if starts_with b'/' seg
    then seg
    else if str_eq buf [] || ends_with b'/' buf
    then buf ++ seg
    else buf ++ b'/' ∷ seg

-- The `if` chain of `sanitize_path`: whether the segment is rejected.
unfoldable pub rejects : Str → Bool
unfolding starts_with ends_with
rejects seg =
    if starts_with b'.' seg
    then true
    else if starts_with b'*' seg
    then true
    else if ends_with b':' seg
    then true
    else if ends_with b'>' seg
    then true
    else if ends_with b'<' seg
    then true
    else if contains 0x5c seg
    then true
    else contains 0 seg

-- The loop of `sanitize_path`.
unfoldable pub push_segments : Str → List Str → Option Str
push_segments buf [] = some buf
push_segments buf (seg ∷ segs) =
    let rest = push_segments (if str_eq seg [] then buf else push buf seg) segs in
    if rejects seg then none else rest

module _ (H : Http) where
  unfoldable pub sanitize_path : Str → Option Str
  unfolding push_segments
  sanitize_path string = do decoded ← H.decode_utf8 string; push_segments [] (split b'/' decoded)

module _ {H : Http} where
  pub tail_path_outcome :
      Request H → RequestState H → Option (RequestState H × Outcome H (Unit {0}) (One Str))
  tail_path_outcome request st = do
    rest ← current_path st request
    some (elim (sanitize_path H rest) [
      | some sanitized ↦ (end_current_path_index request st, success (from_inner sanitized))
      | none ↦ (st, forward tt not_found)
    ])

  unfoldable pub tail_path : Filter H (Unit {0}) (One Str)
  unfolding ready_filter tail_path_outcome current_path end_current_path_index sanitize_path
  tail_path = ready_filter tail_path_outcome
