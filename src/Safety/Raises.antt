-- ===== src/Safety/Raises.antt =====
-- The errors that what is built by the combinators ends in: those that its handlers give, the redirects
-- of `end`, and those of the body and of an invalid date, less those that are recovered from.
use mathlib.Core.Path.{subst}
use myth.Prelude.{◌≡◌, inl, inr, sym, Option, none, some, Option-cases, ok}
use mathlib.Core.Logic.{if_pos, if_neg}
use myth.Http.{Http, StandardMethod}
use myth.Request.{Request, RequestState, BodyError, header}
use myth.Header
use myth.Header.{value_optional, value}
use myth.Errors.{
  BoxedFilterError, box, forward_param, body_error, invalid_if_unmodified_since, recover_type,
  recover_any, TypeId,
}
use myth.Errors.Downcast.{downcast-box, downcast_cases}
use myth.Outcome.{Outcome, RequestOutcome}
use myth.Forward.{not_found}
use myth.Future.{async_fn}
use myth.Future.Sequence.{poll_ready-Completes, Completes-deterministic}
use myth.Text.{Str}
use myth.Tuple.{One, into_inner}
use myth.Response.{Response}
use myth.Filter.Ready.{finish}
use myth.Filter.{Filter, Runs}
use myth.Filter.Raises.{Fine, AllFine, Raises, HandlerRaises, and-Raises, or-Raises, then-Raises}
use myth.Filter.Raises.Handlers.{
  OrRecovered, LeavesOthers, handle-Raises, recover-Raises, recover_forward-Raises, untuple-Raises,
  receive-Raises, dynamic-Raises,
}
use myth.Filter.Handle.{handle_filter}
use myth.Basic.{any, never, cloning, borrowing, uri, version, remote_addr}
use myth.Method.{method_outcome, of_method, method}
use myth.Path.{path, param_str, parse_param, param}
use myth.Path.Raises.{
  ready-Fine, param_str-Raises, literal-Raises, tail-Raises, tail_path-Raises, Redirects,
  end-Raises,
}
use myth.Header.Meaning.{all-Runs, value_optional-Runs, value-Runs, first_value}
use myth.Body.Take.{all}
use myth.Body.Take.Halts.{all-Ends_of}
use myth.Cache.{if_unmodified_since}
use myth.Cache.Meaning.{Decides, if_unmodified_since-Runs}
use myth.Security.{nosniff}
use myth.Safety.{
  Built, any_built, never_built, cloning_built, borrowing_built, uri_built, version_built,
  remote_addr_built, of_method_built, method_built, path_built, param_str_built, param_built,
  literal_built, end_built, tail_built, tail_path_built, and_built, or_built, then_built,
  handle_built, recover_built, recover_forward_built, untuple_built, receive_built, dynamic_built,
  all_headers_built, value_optional_built, value_built, body_built, cache_built, nosniff_built,
}
use myth.Safety.Basics.{literal-eq-some}

-- Where what the filter is built of may end in an error, it is one of those, or recovered from.
abbrev pub RaisesOnly :
    {H : Http} {I S : Type 0} {F : Filter H I S}
    → (BoxedFilterError H → Type 0)
    → Request H
    → Built I S F
    → Type 0
RaisesOnly P r any_built = Unit
RaisesOnly P r never_built = Unit
RaisesOnly P r (cloning_built t) = Unit
RaisesOnly P r (borrowing_built t) = Unit
RaisesOnly P r uri_built = Unit
RaisesOnly P r version_built = Unit
RaisesOnly P r remote_addr_built = Unit
RaisesOnly P r (of_method_built m) = Unit
RaisesOnly P r method_built = Unit
RaisesOnly P r path_built = Unit
RaisesOnly P r param_str_built = Unit
RaisesOnly P r (param_built from_str) = Unit
RaisesOnly P r (literal_built value e) = Unit
RaisesOnly P r end_built = Redirects P r
RaisesOnly P r tail_built = Unit
RaisesOnly P r tail_path_built = Unit
RaisesOnly P r all_headers_built = Unit
RaisesOnly P r (value_optional_built name) = Unit
RaisesOnly P r (value_built name) = Unit
RaisesOnly {H} P r body_built = (e : BodyError H) → P (box body_error e)
RaisesOnly {H} P r cache_built = (value : H.HeaderValue) → P (box invalid_if_unmodified_since value)
RaisesOnly P r nosniff_built = Unit
RaisesOnly P r (and_built both a b) = RaisesOnly P r a × RaisesOnly P r b
RaisesOnly P r (or_built a b) = RaisesOnly P r a × RaisesOnly P r b
RaisesOnly P r (then_built both a b) = RaisesOnly P r a × RaisesOnly P r b
RaisesOnly P r (handle_built F n t) = HandlerRaises P F × RaisesOnly P r t
RaisesOnly P r (recover_built F e n t) =
    LeavesOthers e × HandlerRaises P F × RaisesOnly (OrRecovered e P) r t
RaisesOnly P r (recover_forward_built F e n t) =
    LeavesOthers e × HandlerRaises P F × RaisesOnly (OrRecovered e P) r t
RaisesOnly P r (untuple_built t) = RaisesOnly P r t
RaisesOnly P r (receive_built i o t) = RaisesOnly P r t
RaisesOnly P r (dynamic_built t) = RaisesOnly P r t

module _ {H : Http} (P : BoxedFilterError H → Type 0) where
  -- Where it is known what a filter comes to, the outcome is that.
  known-Raises :
      {I S : Type 0} (F : Filter H I S) (r : Request H)
      (out : RequestState H → I → RequestOutcome H I S)
      → ((st : RequestState H) (input : I) → Runs F r st input (some (out st input)))
      → ((st : RequestState H) (input : I) → Fine P (out st input).outcome)
      → Raises P r F
  known-Raises F r out runs fine st input o c =
      subst (AllFine P) (Completes-deterministic F.poll (runs st input) c) (fine st input)

  ok-HandlerRaises :
      {Args Ok : Type 0} (f : Args → Ok) → HandlerRaises P (async_fn (λ args. some (ok (f args))))
  ok-HandlerRaises f args e c = absurd (cc (poll_ready-Completes (some (ok (f args))) c))

  method_outcome-Fine : (m : StandardMethod) (r : Request H) → Fine P (method_outcome {H = H} m r)
  unfolding method_outcome
  method_outcome-Fine m r = elim (H.Method-discrete r.method (H.standard m)) [
    | yes e ↦ subst (Fine P) (sym (if_pos (H.Method-discrete r.method (H.standard m)) e _ _)) tt
    | no n ↦ subst (Fine P) (sym (if_neg (H.Method-discrete r.method (H.standard m)) n _ _)) tt
  ]

  any-Raises : (r : Request H) → Raises P r any
  unfolding any finish
  any-Raises r st no_input o c = ready-Fine P (some _) o tt c

  uri-Raises : (r : Request H) → Raises P r uri
  unfolding uri
  uri-Raises r st no_input o c = ready-Fine P (some _) o tt c

  first_value-Fine : (v : Option H.HeaderValue) → Fine P (first_value {H = H} v)
  first_value-Fine none = tt
  first_value-Fine (some v) = tt

  body-Raises :
      (r : Request H) → ((e : BodyError H) → P (box body_error e)) → Raises P r (all {H = H})
  body-Raises r h st no_input o c =
      let (x, e, (i, shape, ends)) = all-Ends_of r st o c in
      subst (AllFine P) (sym e) (elim shape [
        | inl (s, same) ↦ subst (Fine P) (sym same) tt
        | inr (b, same) ↦ subst (Fine P) (sym same) (h b)
      ])

  Decides-Fine :
      (r : Request H) (t : H.SystemTime) (o : Outcome H (One H.SystemTime) (One (Response H)))
      → ((value : H.HeaderValue) → P (box invalid_if_unmodified_since value))
      → Decides r t o
      → Fine P o
  Decides-Fine r t o h (inl (fresh, e)) = subst (Fine P) (sym e) tt
  Decides-Fine r t o h (inr (inl (value, invalid, e))) = subst (Fine P) (sym e) (h value)
  Decides-Fine r t o h (inr (inr (stale, e))) = subst (Fine P) (sym e) tt

  cache-Raises :
      (r : Request H)
      → ((value : H.HeaderValue) → P (box invalid_if_unmodified_since value))
      → Raises P r if_unmodified_since
  cache-Raises r h st input o c =
      let (out, run, d) = if_unmodified_since-Runs r st (into_inner input) in
      subst (AllFine P) (Completes-deterministic (if_unmodified_since {H = H}).poll run c)
        (Decides-Fine r (into_inner input) out h d)

module _ {H : Http} where
  pub recover_type-LeavesOthers : (t : TypeId H) → LeavesOthers (recover_type t)
  recover_type-LeavesOthers t e e' same = elim (downcast_cases t e) [
    | inl (w, f, g) ↦ absurd (cc (same, f))
    | inr (f, g) ↦ (cc (same, f))
  ]

  pub recover_any-LeavesOthers : LeavesOthers (recover_any {H = H})
  recover_any-LeavesOthers e e' same = absurd (cc (same))

  module _ (P : BoxedFilterError H → Type 0) {T : Type 0} (from_str : Str → Option T) where
    parse_param-HandlerRaises :
        HandlerRaises
          (OrRecovered (recover_type forward_param) P)
          (async_fn (λ found. some (parse_param from_str found)))
    parse_param-HandlerRaises found e c =
        let same = poll_ready-Completes (some (parse_param from_str found)) c in
        elim (Option-cases (from_str (into_inner found))) [
          | inl n ↦
              let is : e ≡ box forward_param tt = cc (rw (parse_param, n) at same) in
              inl (tt, rw is (downcast-box forward_param tt))
          | inr (t, s) ↦ absurd (cc (rw (parse_param, s) at same))
        ]

    param-Raises : (r : Request H) → Raises P r (param from_str)
    unfolding param
    param-Raises r =
        recover_forward-Raises P
          (handle_filter param_str (async_fn (λ found. some (parse_param from_str found))))
          (async_fn (λ e. some (ok not_found))) (recover_type forward_param)
          (recover_type-LeavesOthers forward_param) r
          (handle-Raises (OrRecovered (recover_type forward_param) P) param_str
            (async_fn (λ found. some (parse_param from_str found))) r
            (param_str-Raises (OrRecovered (recover_type forward_param) P) r)
            parse_param-HandlerRaises)
          (ok-HandlerRaises P (λ e. not_found))

-- Of a filter that is built by the combinators on a request: if a predicate holds of every error that
-- its handlers give, of every redirect that `end` gives for the path, of the errors of reading the body
-- and of an invalid date, each where the filter has such a part and does not recover from it, then it
-- holds of every error that the filter ends in. No condition is put on `param` and `header::value`.
pub Built-Raises :
    {H : Http} (P : BoxedFilterError H → Type 0) {I S : Type 0} {F : Filter H I S} (r : Request H)
    (b : Built I S F)
    → RaisesOnly P r b
    → Raises P r F
unfolding never cloning borrowing version remote_addr of_method method path nosniff finish
Built-Raises P r any_built h = any-Raises P r
Built-Raises P r never_built h = λ st no_input o c. ready-Fine P (some _) o tt c
Built-Raises P r (cloning_built t) h =
    handle-Raises P any (async_fn (λ no_args. some (ok t))) r (any-Raises P r)
      (ok-HandlerRaises P (λ no_args. t))
Built-Raises P r (borrowing_built t) h = λ st no_input o c. ready-Fine P (some _) o tt c
Built-Raises P r uri_built h = uri-Raises P r
Built-Raises P r version_built h = λ st no_input o c. ready-Fine P (some _) o tt c
Built-Raises P r remote_addr_built h = λ st no_input o c. ready-Fine P (some _) o tt c
Built-Raises P r (of_method_built m) h =
    λ st no_input o c. ready-Fine P (some _) o (method_outcome-Fine P m r) c
Built-Raises P r method_built h = λ st no_input o c. ready-Fine P (some _) o tt c
Built-Raises {H} P r path_built h =
    handle-Raises P uri (async_fn (λ u. some (ok (H.path (into_inner u))))) r (uri-Raises P r)
      (ok-HandlerRaises P (λ u. H.path (into_inner u)))
Built-Raises P r param_str_built h = param_str-Raises P r
Built-Raises P r (param_built from_str) h = param-Raises P from_str r
Built-Raises P r (literal_built value e) h =
    subst (Raises P r) (literal-eq-some value e) (literal-Raises P value r)
Built-Raises P r end_built h = end-Raises P r h
Built-Raises P r tail_built h = tail-Raises P r
Built-Raises P r tail_path_built h = tail_path-Raises P r
Built-Raises P r all_headers_built h =
    known-Raises P Header.all r _ (λ st no_input. all-Runs r st) (λ st no_input. tt)
Built-Raises P r (value_optional_built name) h =
    known-Raises P (value_optional name) r _ (λ st no_input. value_optional-Runs r st name)
      (λ st no_input. tt)
Built-Raises P r (value_built name) h =
    known-Raises P (value name) r _ (λ st no_input. value-Runs r st name)
      (λ st no_input. first_value-Fine P (header r name))
Built-Raises P r body_built h = body-Raises P r h
Built-Raises P r cache_built h = cache-Raises P r h
Built-Raises P r nosniff_built h = λ st input o c. ready-Fine P (some _) o tt c
Built-Raises P r (and_built {A = A} {B = B} both a b) (h, k) =
    and-Raises P A B both r (Built-Raises P r a h) (Built-Raises P r b k)
Built-Raises P r (or_built {A = A} {B = B} a b) (h, k) =
    or-Raises P A B r (Built-Raises P r a h) (Built-Raises P r b k)
Built-Raises P r (then_built both {A = A} {B = B} a b) (h, k) =
    then-Raises P both A B r (Built-Raises P r a h) (Built-Raises P r b k)
Built-Raises P r (handle_built {T = T} F n t) (f, h) =
    handle-Raises P T F r (Built-Raises P r t h) f
Built-Raises P r (recover_built {T = T} F e n t) (l, f, h) =
    recover-Raises P T F e l r (Built-Raises (OrRecovered e P) r t h) f
Built-Raises P r (recover_forward_built {T = T} F e n t) (l, f, h) =
    recover_forward-Raises P T F e l r (Built-Raises (OrRecovered e P) r t h) f
Built-Raises P r (untuple_built {T = T} t) h = untuple-Raises P T r (Built-Raises P r t h)
Built-Raises P r (receive_built {T = T} i o t) h = receive-Raises P T i o r (Built-Raises P r t h)
Built-Raises P r (dynamic_built {T = T} t) h = dynamic-Raises P T r (Built-Raises P r t h)
