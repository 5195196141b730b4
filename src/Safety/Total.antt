-- ===== src/Safety/Total.antt =====
-- Whatever is built by the combinators, run on a request whose body ends, is done after a finite number of
-- polls if its handlers are, and comes to an outcome.
use mathlib.Core.Path.{subst}
use myth.Prelude.{some, ok}
use myth.Http.{Http}
use myth.Request.{Request, RequestState}
use myth.Request.Paths.{InPath}
use myth.Request.Body.{IsEnding}
use myth.Errors.{forward_param, recover_type}
use myth.Outcome.{RequestOutcome}
use myth.Forward.{not_found}
use myth.Future.{async_fn}
use myth.Future.Sequence.{Completes-poll_ready}
use myth.Text.{Str}
use myth.Tuple.{into_inner}
use myth.Filter.{Filter, Runs}
use myth.Filter.Halts.{Halts, Answering, and-Halts, or-Halts, then-Halts, handle-Halts}
use myth.Filter.Halts.Handlers.{
  async_fn-Answering, recover-Halts, recover_forward-Halts, untuple-Halts, receive-Halts,
  dynamic-Halts,
}
use myth.Filter.Handle.{handle_filter}
use myth.Basic.{any, never, cloning, borrowing, uri, version, remote_addr}
use myth.Method.{of_method, method}
use myth.Path.{path, param_str, parse_param, param, literal_filter, end, tail, tail_path}
use myth.Safety.{
  Built, any_built, never_built, cloning_built, borrowing_built, uri_built, version_built,
  remote_addr_built, of_method_built, method_built, path_built, param_str_built, param_built,
  literal_built, end_built, tail_built, tail_path_built, and_built, or_built, then_built,
  handle_built, recover_built, recover_forward_built, untuple_built, receive_built, dynamic_built,
  all_headers_built, value_optional_built, value_built, body_built, cache_built, nosniff_built,
  Built-Keeps,
}
use myth.Header.Meaning.{all-Runs, value_optional-Runs, value-Runs}
use myth.Body.Take.Halts.{all-Halts}
use myth.Cache.{if_unmodified_since}
use myth.Security.{nosniff}
use myth.Safety.Basics.{literal-eq-some}

-- Every handler that the filter was built with is done after a finite number of polls.
abbrev pub IsAnswering : {H : Http} {I S : Type 0} {F : Filter H I S} → Built I S F → Type 0
IsAnswering any_built = Unit
IsAnswering never_built = Unit
IsAnswering (cloning_built t) = Unit
IsAnswering (borrowing_built t) = Unit
IsAnswering uri_built = Unit
IsAnswering version_built = Unit
IsAnswering remote_addr_built = Unit
IsAnswering (of_method_built m) = Unit
IsAnswering method_built = Unit
IsAnswering path_built = Unit
IsAnswering param_str_built = Unit
IsAnswering (param_built from_str) = Unit
IsAnswering (literal_built value e) = Unit
IsAnswering end_built = Unit
IsAnswering tail_built = Unit
IsAnswering tail_path_built = Unit
IsAnswering all_headers_built = Unit
IsAnswering (value_optional_built name) = Unit
IsAnswering (value_built name) = Unit
IsAnswering body_built = Unit
IsAnswering cache_built = Unit
IsAnswering nosniff_built = Unit
IsAnswering (and_built both a b) = IsAnswering a × IsAnswering b
IsAnswering (or_built a b) = IsAnswering a × IsAnswering b
IsAnswering (then_built both a b) = IsAnswering a × IsAnswering b
IsAnswering (handle_built F n t) = Answering F × IsAnswering t
IsAnswering (recover_built F e n t) = Answering F × IsAnswering t
IsAnswering (recover_forward_built F e n t) = Answering F × IsAnswering t
IsAnswering (untuple_built t) = IsAnswering t
IsAnswering (receive_built i o t) = IsAnswering t
IsAnswering (dynamic_built t) = IsAnswering t

module _ {H : Http} where
  uri-Halts : Halts (uri {H = H})
  unfolding uri
  uri-Halts r st input p = (_, Completes-poll_ready _)

  any-Halts : Halts (any {H = H})
  unfolding any
  any-Halts = λ r st input p. (_, Completes-poll_ready _)

  param_str-Halts : Halts (param_str {H = H})
  unfolding param_str
  param_str-Halts r st input p = (_, Completes-poll_ready _)

  literal_filter-Halts : (value : Str) → Halts (literal_filter {H = H} value)
  unfolding literal_filter
  literal_filter-Halts value = λ r st input p. (_, Completes-poll_ready _)

Built-Halts :
    {H : Http} {I S : Type 0} {F : Filter H I S} (b : Built I S F) → IsAnswering b → Halts F
unfolding never cloning borrowing version remote_addr of_method method path param end tail tail_path
    if_unmodified_since nosniff
Built-Halts any_built h = any-Halts
Built-Halts never_built h = λ r st input p. (_, Completes-poll_ready _)
Built-Halts (cloning_built t) h =
    handle-Halts any (async_fn (λ no_args. some (ok t))) any-Halts (async_fn-Answering _)
Built-Halts (borrowing_built t) h = λ r st input p. (_, Completes-poll_ready _)
Built-Halts uri_built h = uri-Halts
Built-Halts version_built h = λ r st input p. (_, Completes-poll_ready _)
Built-Halts remote_addr_built h = λ r st input p. (_, Completes-poll_ready _)
Built-Halts (of_method_built m) h = λ r st input p. (_, Completes-poll_ready _)
Built-Halts method_built h = λ r st input p. (_, Completes-poll_ready _)
Built-Halts {H} path_built h =
    handle-Halts uri (async_fn (λ u. some (ok (H.path (into_inner u))))) uri-Halts
      (async_fn-Answering _)
Built-Halts param_str_built h = param_str-Halts
Built-Halts (param_built from_str) h =
    recover_forward-Halts
      (handle_filter param_str (async_fn (λ found. some (parse_param from_str found))))
      (async_fn (λ e. some (ok not_found))) (recover_type forward_param)
      (handle-Halts param_str (async_fn (λ found. some (parse_param from_str found)))
        param_str-Halts (async_fn-Answering _))
      (async_fn-Answering _)
Built-Halts (literal_built value e) h =
    subst Halts (literal-eq-some value e) (literal_filter-Halts value)
Built-Halts end_built h = λ r st input p. (_, Completes-poll_ready _)
Built-Halts tail_built h = λ r st input p. (_, Completes-poll_ready _)
Built-Halts tail_path_built h = λ r st input p. (_, Completes-poll_ready _)
Built-Halts all_headers_built h = λ r st input p. (_, all-Runs r st)
Built-Halts (value_optional_built name) h = λ r st input p. (_, value_optional-Runs r st name)
Built-Halts (value_built name) h = λ r st input p. (_, value-Runs r st name)
Built-Halts body_built h = λ r st input p. all-Halts r st (p.1 tt)
Built-Halts cache_built h = λ r st input p. (_, Completes-poll_ready _)
Built-Halts nosniff_built h = λ r st input p. (_, Completes-poll_ready _)
Built-Halts (and_built {A = A} {B = B} both a b) (h, k) =
    and-Halts A B both (Built-Keeps a) (Built-Halts a h) (Built-Halts b k)
Built-Halts (or_built {A = A} {B = B} a b) (h, k) =
    or-Halts A B (Built-Keeps a) (Built-Halts a h) (Built-Halts b k)
Built-Halts (then_built both {A = A} {B = B} a b) (h, k) =
    then-Halts both A B (Built-Keeps a) (Built-Halts a h) (Built-Halts b k)
Built-Halts (handle_built {T = T} F n t) (f, h) = handle-Halts T F (Built-Halts t h) f
Built-Halts (recover_built {T = T} F e n t) (f, h) = recover-Halts T F e (Built-Halts t h) f
Built-Halts (recover_forward_built {T = T} F e n t) (f, h) =
    recover_forward-Halts T F e (Built-Halts t h) f
Built-Halts (untuple_built {T = T} t) h = untuple-Halts T (Built-Halts t h)
Built-Halts (receive_built {T = T} i o t) h = receive-Halts T i o (Built-Halts t h)
Built-Halts (dynamic_built {T = T} t) h = dynamic-Halts T (Built-Halts t h)

-- A filter that is built out of the basic, method, path and header filters, `body::all`,
-- `if_unmodified_since` and `x_content_type_options` by the combinators, from handlers that do not panic
-- and are done after a finite number of polls, run from a state whose path index stands behind whole
-- characters of the path and whose body ends or fails after a finite number of polls, is itself done
-- after a finite number of polls, with an outcome, and leaves such a state.
pub Built-Runs :
    {H : Http} {I S : Type 0} (F : Filter H I S) (r : Request H) (st : RequestState H) (input : I)
    (b : Built I S F)
    → IsAnswering b
    → InPath r st
    → IsEnding st.body
    → (x : RequestOutcome H I S) × Runs F r st input (some x)
      × InPath r x.request_state
      × IsEnding x.request_state.body
Built-Runs F r st input b h p k =
    let (o, c) = Built-Halts b h r st input (p, λ holds. k) in
    let (x, e, (q, ends)) = Built-Keeps b (Unit {0}) r st input o (p, λ holds. k) c in
    (x, subst (λ y. Runs F r st input y) e c, q, ends tt)
