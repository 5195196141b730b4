-- ===== src/Safety.antt =====
-- Everything that is built out of the filters of the program by the combinators: no slice of the path
-- panics, and the path index stays inside the path.
pub mod Basics
pub mod Leaves
pub mod Total
pub mod Raises
use mathlib.Core.Path.{subst}
use myth.Prelude.{Option, none, some, ◌≡◌}
use myth.Http.{Http, StandardMethod}
use myth.Request.{Request, RequestState}
use myth.Request.Paths.{InPath}
use myth.Errors.{BoxedFilterError, Recoverable}
use myth.Outcome.{RequestOutcome}
use myth.Future.{AsyncTryFn}
use myth.Forward.{Forwarding}
use myth.Text.{Str}
use myth.Tuple.{Append, One}
use myth.Filter.{Filter, Runs}
use myth.Filter.Keeps.{Kept, Keeps, NeverPanics}
use myth.Filter.Keeps.Combinators.{and-Keeps, or-Keeps, then-Keeps}
use myth.Filter.Keeps.Handlers.{
  handle-Keeps, recover-Keeps, recover_forward-Keeps, untuple-Keeps, receive-Keeps, dynamic-Keeps,
}
use myth.Filter.And.{and_filter}
use myth.Filter.Or.{or_filter}
use myth.Filter.Then.{then_filter}
use myth.Filter.Handle.{handle_filter}
use myth.Filter.Recover.{recover_filter}
use myth.Filter.RecoverForward.{recover_forward_filter}
use myth.Filter.Untuple.{untuple_filter}
use myth.Filter.Receive.{receive_filter}
use myth.Filter.Dynamic.{dynamic}
use myth.Basic.{any, never, cloning, borrowing, uri, version, remote_addr}
use myth.Method.{of_method, method}
use myth.Path.{path, param_str, param, literal_filter, literal, end, tail, tail_path}
use myth.Path.Consume.{literal-Keeps, param_str-Keeps, end-Keeps, tail-Keeps, tail_path-Keeps}
use myth.Response.{Response}
use myth.Header.{value_optional, value}
use myth.Header
use myth.Body.Buffer.{BytesBuf}
use myth.Body.Take.{all}
use myth.Cache.{if_unmodified_since}
use myth.Security.{nosniff}
use myth.Safety.Leaves.{
  all_headers-Keeps, value_optional-Keeps, value-Keeps, body-Keeps, cache-Keeps, nosniff-Keeps,
}
use myth.Safety.Basics.{
  any-Keeps, never-Keeps, cloning-Keeps, borrowing-Keeps, uri-Keeps, version-Keeps,
  remote_addr-Keeps, of_method-Keeps, method-Keeps, path-Keeps, param-Keeps, literal-eq-some,
}

-- What is built out of the basic, method, path and header filters, `body::all`, `if_unmodified_since` and
-- `x_content_type_options` by the combinators, from handlers that do not panic. Not of
-- `content_length_limit`, which panics on a header that is no number, nor of the filters of src/json.rs,
-- src/form, src/query.rs, src/security/hsts.rs and src/security/origin.rs as they are, though the first
-- three are put together from those here.
pub data Built {H : Http} : (I S : Type 0) → Filter H I S → Type 1 where
  any_built : Built (Unit {0}) (Unit {0}) any
  never_built : {T : Type 0} → Built (Unit {0}) (One T) never
  cloning_built : {T : Type 0} (t : T) → Built (Unit {0}) (One T) (cloning t)
  borrowing_built : {T : Type 0} (t : T) → Built (Unit {0}) (One T) (borrowing t)
  uri_built : Built (Unit {0}) (One H.Uri) uri
  version_built : Built (Unit {0}) (One H.Version) version
  remote_addr_built : Built (Unit {0}) (One H.SocketAddr) remote_addr
  of_method_built : (m : StandardMethod) → Built (Unit {0}) (Unit {0}) (of_method m)
  method_built : Built (Unit {0}) (One H.Method) method
  path_built : Built (Unit {0}) (One Str) path
  param_str_built : Built (Unit {0}) (One Str) param_str
  param_built : {T : Type 0} (from_str : Str → Option T) → Built (Unit {0}) (One T) (param from_str)
  literal_built :
      (value : Str) {F : Filter H (Unit {0}) (Unit {0})}
      → literal value ≡ some F
      → Built (Unit {0}) (Unit {0}) F
  end_built : Built (Unit {0}) (Unit {0}) end
  tail_built : Built (Unit {0}) (One Str) tail
  tail_path_built : Built (Unit {0}) (One Str) tail_path
  all_headers_built : Built (Unit {0}) (One H.HeaderMap) Header.all
  value_optional_built :
      (name : H.HeaderName) → Built (Unit {0}) (One (Option H.HeaderValue)) (value_optional name)
  value_built : (name : H.HeaderName) → Built (Unit {0}) (One H.HeaderValue) (value name)
  body_built : Built (Unit {0}) (One BytesBuf) all
  cache_built : Built (One H.SystemTime) (One (Response H)) if_unmodified_since
  nosniff_built : Built (One (Response H)) (One (Response H)) nosniff
  and_built :
      {I S₁ S₂ : Type 0} {A : Filter H (Unit {0}) S₁} {B : Filter H I S₂} (both : Append S₁ S₂)
      → Built (Unit {0}) S₁ A
      → Built I S₂ B
      → Built I both.Both (and_filter A B both)
  or_built :
      {I S : Type 0} {A B : Filter H I S} → Built I S A → Built I S B → Built I S (or_filter A B)
  then_built :
      {R S₁ S : Type 0} (both : Append R S₁) {A : Filter H (Unit {0}) S₁} {B : Filter H both.Both S}
      → Built (Unit {0}) S₁ A
      → Built both.Both S B
      → Built R S (then_filter both A B)
  handle_built :
      {I S Ok : Type 0} {T : Filter H I S} (F : AsyncTryFn S Ok (BoxedFilterError H))
      → NeverPanics F
      → Built I S T
      → Built I (One Ok) (handle_filter T F)
  recover_built :
      {I V E : Type 0} {T : Filter H I (One V)} (F : AsyncTryFn (One E) V (BoxedFilterError H))
      (as_error : Recoverable H E)
      → NeverPanics F
      → Built I (One V) T
      → Built I (One V) (recover_filter T F as_error)
  recover_forward_built :
      {S E : Type 0} {T : Filter H (Unit {0}) S}
      (F : AsyncTryFn (One E) Forwarding (BoxedFilterError H)) (as_error : Recoverable H E)
      → NeverPanics F
      → Built (Unit {0}) S T
      → Built (Unit {0}) S (recover_forward_filter T F as_error)
  untuple_built :
      {I V : Type 0} {T : Filter H I (One V)} → Built I (One V) T → Built I V (untuple_filter T)
  receive_built :
      {I S R : Type 0} {T : Filter H I S} (in_front : Append R I) (out_front : Append R S)
      → Built I S T
      → Built in_front.Both out_front.Both (receive_filter T in_front out_front)
  dynamic_built : {I S : Type 0} {T : Filter H I S} → Built I S T → Built I S (dynamic T)

pub Built-Keeps : {H : Http} {I S : Type 0} {F : Filter H I S} → Built I S F → Keeps F
Built-Keeps any_built = any-Keeps
Built-Keeps never_built = never-Keeps
Built-Keeps (cloning_built t) = cloning-Keeps t
Built-Keeps (borrowing_built t) = borrowing-Keeps t
Built-Keeps uri_built = uri-Keeps
Built-Keeps version_built = version-Keeps
Built-Keeps remote_addr_built = remote_addr-Keeps
Built-Keeps (of_method_built m) = of_method-Keeps m
Built-Keeps method_built = method-Keeps
Built-Keeps path_built = path-Keeps
Built-Keeps param_str_built = param_str-Keeps
Built-Keeps (param_built from_str) = param-Keeps from_str
Built-Keeps (literal_built value e) = subst Keeps (literal-eq-some value e) (literal-Keeps value)
Built-Keeps end_built = end-Keeps
Built-Keeps tail_built = tail-Keeps
Built-Keeps tail_path_built = tail_path-Keeps
Built-Keeps all_headers_built = all_headers-Keeps
Built-Keeps (value_optional_built name) = value_optional-Keeps name
Built-Keeps (value_built name) = value-Keeps name
Built-Keeps body_built = body-Keeps
Built-Keeps cache_built = cache-Keeps
Built-Keeps nosniff_built = nosniff-Keeps
Built-Keeps (and_built {A = A} {B = B} both a b) =
    and-Keeps A B both (Built-Keeps a) (Built-Keeps b)
Built-Keeps (or_built {A = A} {B = B} a b) = or-Keeps A B (Built-Keeps a) (Built-Keeps b)
Built-Keeps (then_built both {A = A} {B = B} a b) =
    then-Keeps both A B (Built-Keeps a) (Built-Keeps b)
Built-Keeps (handle_built {T = T} F n t) = handle-Keeps T F (Built-Keeps t) n
Built-Keeps (recover_built {T = T} F e n t) = recover-Keeps T F e (Built-Keeps t) n
Built-Keeps (recover_forward_built {T = T} F e n t) = recover_forward-Keeps T F e (Built-Keeps t) n
Built-Keeps (untuple_built {T = T} t) = untuple-Keeps T (Built-Keeps t)
Built-Keeps (receive_built {T = T} i o t) = receive-Keeps T i o (Built-Keeps t)
Built-Keeps (dynamic_built {T = T} t) = dynamic-Keeps T (Built-Keeps t)

-- Run from a state whose path index stands behind whole characters of the path, no filter that is built
-- out of the basic, method, path and header filters, `body::all`, `if_unmodified_since` and
-- `x_content_type_options` by the combinators, from handlers that do not panic, ever panics, and the
-- state that it leaves has its path index behind whole characters of the path again.
pub Built-InPath :
    {H : Http} {I S : Type 0} (F : Filter H I S) (r : Request H) (st : RequestState H) (input : I)
    (o : Option (RequestOutcome H I S))
    → Built I S F
    → InPath r st
    → Runs F r st input o
    → (x : RequestOutcome H I S) × (o ≡ some x) × InPath r x.request_state
Built-InPath F r st input o b p c =
    let (x, e, (q, ends)) = Built-Keeps b ⊥ r st input o (p, λ holds. absurd holds) c in (x, e, q)
