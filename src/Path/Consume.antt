-- ===== src/Path/Consume.antt =====
-- The filters that consume a segment, on a state with its index inside the path.
use myth.Prelude.{
  ℕ, ◌≡◌, ◌⊎◌, inl, inr, Bool, true, false, ◌||◌, Option, none, some, [], ◌++◌, ap, ◌∙◌, Bool-cases,
  Option-cases, if◌then◌else◌,
}
use myth.Text.{Str, str, str_eq}
use myth.Text.Slices.{str_eq_iff}
use myth.Http.{Http}
use myth.Request.{Request, RequestState, incr_current_path_index, end_current_path_index, full_path}
use myth.Request.Paths.{
  InPath, current_path-InPath, previous_path-InPath, incr_current_path_index-InPath,
  end_current_path_index-InPath,
}
use myth.Errors.{box, redirect}
use myth.Outcome.{success, error, forward, RequestOutcome}
use myth.Forward.{not_found}
use myth.Tuple.{from_inner}
use myth.Filter.Ready.{finish, ready_filter-Runs}
use myth.Filter.Keeps.{Sound, Kept, Keeps}
use myth.Future.Sequence.{poll_ready-Completes}
use myth.Path.{
  segment_of, segment, decoded_outcome, decoded_segment, literal_filter, param_str, end_outcome,
  end, tail_outcome, tail, tail_path_outcome, tail_path, sanitize_path,
}
use myth.Path.Segments.{IsSegment, segment_of_lem, Found}

true_ne_false : (b : Bool) → b ≡ true → b ≡ false → ⊥
true_ne_false b h k = cc

-- Nothing is left of the path but an optional slash.
abbrev pub IsExhausted : Str → Type 0
IsExhausted path = (path ≡ []) ⊎ (path ≡ str "/")

not-IsExhausted : (s : Str) → str_eq s [] ≡ false → str_eq s (str "/") ≡ false → ¬ IsExhausted s
not-IsExhausted s h k (inl e) = true_ne_false _ ((str_eq_iff s []).1 e) h
not-IsExhausted s h k (inr e) = true_ne_false _ ((str_eq_iff s (str "/")).1 e) k

IsExhausted-cases :
    (s : Str)
    → (((str_eq s [] || str_eq s (str "/")) ≡ true) × IsExhausted s)
      ⊎ (((str_eq s [] || str_eq s (str "/")) ≡ false) × (¬ IsExhausted s))
IsExhausted-cases s = elim (Bool-cases (str_eq s [])) [
  | inl h ↦ inl (rw h, inl ((str_eq_iff s []).0 h))
  | inr h ↦ elim (Bool-cases (str_eq s (str "/"))) [
    | inl k ↦ inl (rw (h, k), inr ((str_eq_iff s (str "/")).0 k))
    | inr k ↦ inr (rw (h, k), not-IsExhausted s h k)
  ]
]

module _ {H : Http} where
  segment-InPath :
      (r : Request H) (st : RequestState H) (p : InPath r st) → segment r st ≡ segment_of p.after
  unfolding segment
  segment-InPath r st p = rw (current_path-InPath r st p)

  module _ {S : Type 0} (func : Str → Option S) (r : Request H) (st : RequestState H) where
    -- There is no segment, or the function has no value for the one that there is.
    abbrev pub NoMatch : Str → Type 0
    NoMatch path =
        IsExhausted path
        ⊎ ((found : Str) × (length : ℕ) × IsSegment path found length
            × (func (H.decode_utf8_lossy found) ≡ none))

    abbrev pub Match : Str → Type 0
    Match path =
        (found : Str) × (length : ℕ) × (s : S) × IsSegment path found length
        × (func (H.decode_utf8_lossy found) ≡ some s)
        × (decoded_segment func r st ≡ some (incr_current_path_index length st, success s))

    decoded_segment-Found :
        (path : Str)
        → segment r st ≡ segment_of path
        → Found path
        → ((decoded_segment func r st ≡ some (st, forward tt not_found)) × NoMatch path)
          ⊎ Match path
    unfolding decoded_segment decoded_outcome
    decoded_segment-Found path same (found, length, e, is) =
        elim (Option-cases (func (H.decode_utf8_lossy found))) [
          | inl fails ↦ inl (rw (same, e, decoded_outcome, fails), inr (found, length, is, fails))
          | inr (s, works) ↦ inr (found, length, s, is, works, rw (same, e, decoded_outcome, works))
        ]

    -- Either the path is exhausted or its segment is not accepted, and the state stays as it is; or
    -- the segment is accepted, and the index moves behind it. Nothing panics.
    pub decoded_segment_cases :
        (p : InPath r st)
        → ((decoded_segment func r st ≡ some (st, forward tt not_found)) × NoMatch p.after)
          ⊎ Match p.after
    unfolding decoded_segment decoded_outcome
    decoded_segment_cases p = elim (segment_of_lem p.after) [
      | inl (e, exhausted) ↦ inl (rw (segment-InPath r st p, e), inl exhausted)
      | inr (found, _, _) ↦ decoded_segment-Found p.after (segment-InPath r st p) found
    ]

    pub decoded_segment-Kept :
        (P : Type 0) (o : Option (RequestOutcome H (Unit {0}) S))
        → Sound P r st
        → o ≡ finish (decoded_segment func r st)
        → Kept P r o
    unfolding finish incr_current_path_index
    decoded_segment-Kept P o (p, k) e = elim (decoded_segment_cases p) [
      | inl (same, _) ↦ (_, e ∙ ap finish same, (p, k))
      | inr (found, length, s, is, _, same) ↦ (
        _,
        e ∙ ap finish same,
        (
          rw is.measured
              (incr_current_path_index-InPath r st p (is.lead ++ found) is.rest is.splits),
          k,
        ),
      )
    ]

  pub literal-Keeps : (value : Str) → Keeps (literal_filter {H = H} value)
  unfolding literal_filter
  literal-Keeps value P r st no_input o p c =
      decoded_segment-Kept (λ found. if str_eq value found then some tt else none) r st P o p
        (ready_filter-Runs (decoded_segment (λ found. if str_eq value found then some tt else none))
          r st o c)

  pub param_str-Keeps : Keeps (param_str {H = H})
  unfolding param_str
  param_str-Keeps P r st no_input o p c =
      decoded_segment-Kept (λ found. some (from_inner found)) r st P o p (poll_ready-Completes _ c)

  -- `end` succeeds if the whole path is empty or a lone slash, and if nothing of it is left; with a
  -- lone slash left of a longer path it fails with a redirect to what was consumed; with more left it
  -- forwards. The state stays as it is and nothing panics.
  pub end_outcome_cases :
      (r : Request H) (st : RequestState H) (p : InPath r st)
      → (IsExhausted (full_path r) × (end_outcome r st ≡ some (st, success tt)))
        ⊎ ((¬ IsExhausted (full_path r))
            × (p.after ≡ [])
            × (end_outcome r st ≡ some (st, success tt)))
        ⊎ ((¬ IsExhausted (full_path r))
            × (p.after ≡ str "/")
            × (end_outcome r st ≡ some (st, error (box redirect (record { location = p.before })))))
        ⊎ ((¬ IsExhausted (full_path r))
            × (¬ IsExhausted p.after)
            × (end_outcome r st ≡ some (st, forward tt not_found)))
  unfolding end_outcome
  end_outcome_cases r st p = elim (IsExhausted-cases (full_path r)) [
    | inl (e, is) ↦ inl (is, rw e)
    | inr (e, is_not) ↦
        let here = current_path-InPath r st p in
        let before = previous_path-InPath r st p in
        elim (Bool-cases (str_eq p.after [])) [
          | inl nil ↦ inr (inl (is_not, (str_eq_iff p.after []).0 nil, rw (e, here, before, nil)))
          | inr some_left ↦ elim (Bool-cases (str_eq p.after (str "/"))) [
            | inl slash ↦ inr (
                inr (
                  inl (
                    is_not,
                    (str_eq_iff p.after (str "/")).0 slash,
                    rw (e, here, before, some_left, slash),
                  )))
            | inr more ↦ inr (
                inr (
                  inr (
                    is_not,
                    not-IsExhausted p.after some_left more,
                    rw (e, here, before, some_left, more),
                  )))
          ]
        ]
  ]

  pub end-Keeps : Keeps (end {H = H})
  unfolding end finish
  end-Keeps P r st no_input o (p, k) c =
      let e = ready_filter-Runs end_outcome r st o c in
      elim (end_outcome_cases r st p) [
        | inl (_, same) ↦ (_, e ∙ ap finish same, (p, k))
        | inr (inl (_, _, same)) ↦ (_, e ∙ ap finish same, (p, k))
        | inr (inr (inl (_, _, same))) ↦ (_, e ∙ ap finish same, (p, k))
        | inr (inr (inr (_, _, same))) ↦ (_, e ∙ ap finish same, (p, k))
      ]

  tail_outcome-InPath :
      (r : Request H) (st : RequestState H) (p : InPath r st)
      → tail_outcome r st
        ≡ some (record {
          request_state = end_current_path_index r st;
          outcome = success (from_inner p.after);
        })
  unfolding tail_outcome
  tail_outcome-InPath r st p = rw (current_path-InPath r st p)

  -- A tail that `sanitize_path` rejects is forwarded with the state as it was.
  pub tail_path_outcome-none :
      (r : Request H) (st : RequestState H) (p : InPath r st)
      → sanitize_path H p.after ≡ none
      → tail_path_outcome r st ≡ some (st, forward tt not_found)
  unfolding tail_path_outcome
  tail_path_outcome-none r st p h = rw (current_path-InPath r st p, h)

  -- A tail that it accepts is consumed to the end.
  pub tail_path_outcome-some :
      (r : Request H) (st : RequestState H) (p : InPath r st) (path : Str)
      → sanitize_path H p.after ≡ some path
      → tail_path_outcome r st ≡ some (end_current_path_index r st, success (from_inner path))
  unfolding tail_path_outcome
  tail_path_outcome-some r st p path h = rw (current_path-InPath r st p, h)

  pub tail-Keeps : Keeps (tail {H = H})
  unfolding tail end_current_path_index
  tail-Keeps P r st no_input o (p, k) c = (
    _,
    poll_ready-Completes (tail_outcome r st) c ∙ tail_outcome-InPath r st p,
    (end_current_path_index-InPath r st, k),
  )

  pub tail_path-Keeps : Keeps (tail_path {H = H})
  unfolding tail_path finish end_current_path_index
  tail_path-Keeps P r st no_input o (p, k) c =
      let e = ready_filter-Runs tail_path_outcome r st o c in
      elim (Option-cases (sanitize_path H p.after)) [
        | inl rejected ↦ (_, e ∙ ap finish (tail_path_outcome-none r st p rejected), (p, k))
        | inr (path, clean) ↦ (
          _,
          e ∙ ap finish (tail_path_outcome-some r st p path clean),
          (end_current_path_index-InPath r st, k),
        )
      ]
