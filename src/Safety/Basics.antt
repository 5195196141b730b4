-- ===== src/Safety/Basics.antt =====
-- The filters that look at no path, and the two that are built from others, keep the path index.
use myth.Prelude.{Option, none, some, ◌≡◌, Result, ok, Bool, true, false, if◌then◌else◌, ◌||◌, []}
use mathlib.Core.Option.{some-injective}
use myth.Http.{Http, StandardMethod}
use myth.Request.{Request, RequestState}
use myth.Errors.{forward_param, recover_type}
use myth.Outcome.{Outcome, success, forward}
use myth.Forward.{not_found}
use myth.Future.{async_fn}
use myth.Future.Sequence.{poll_ready-Completes}
use myth.Text.{Str, str_eq, contains}
use myth.Tuple.{into_inner, from_inner}
use myth.Filter.{Filter}
use myth.Filter.Ready.{ready_filter, finish, ready_filter-Runs}
use myth.Filter.Keeps.{Keeps, NeverPanics}
use myth.Filter.Keeps.Handlers.{handle-Keeps, recover_forward-Keeps}
use myth.Filter.Handle.{handle_filter}
use myth.Basic.{any, never, cloning, borrowing, uri, version, remote_addr}
use myth.Method.{method_outcome, of_method, method}
use myth.Path.{path, param_str, parse_param, param, literal_filter, literal}
use myth.Path.Consume.{param_str-Keeps}

-- A handler that answers with a value.
async_fn-NeverPanics :
    {Args Ok Err : Type 0} (f : Args → Result Ok Err)
    → NeverPanics (async_fn (λ args. some (f args)))
async_fn-NeverPanics f args (some x) c e = cc
async_fn-NeverPanics f args none c e =
    none-ne-some (f args) (poll_ready-Completes (some (f args)) c)
  where
    none-ne-some : {A : Type 0} (x : A) → ¬ (none ≡ some x)
    none-ne-some x h = cc

-- What an assertion lets through.
some-injective_if {ℓ} :
    {A : Type ℓ} (b : Bool) {x y : A} → (if b then none else some x) ≡ some y → x ≡ y
some-injective_if true e = absurd (cc)
some-injective_if false e = some-injective _ _ e

module _ {H : Http} where
  -- A filter that answers at once and leaves the state alone.
  still-Keeps :
      {S : Type 0} (f : Request H → RequestState H → Outcome H (Unit {0}) S)
      → Keeps (ready_filter (λ r st. some (st, f r st)))
  unfolding finish
  still-Keeps f P r st no_input o p c =
      (_, ready_filter-Runs (λ r' st'. some (st', f r' st')) r st o c, p)

  pub any-Keeps : Keeps (any {H = H})
  unfolding any
  any-Keeps = still-Keeps (λ r st. success tt)

  pub never-Keeps : {T : Type 0} → Keeps (never {H = H} {T = T})
  unfolding never
  never-Keeps = still-Keeps (λ r st. forward tt not_found)

  pub cloning-Keeps : {T : Type 0} (t : T) → Keeps (cloning {H = H} t)
  unfolding cloning
  cloning-Keeps t =
      handle-Keeps any (async_fn (λ no_args. some (ok t))) any-Keeps
        (async_fn-NeverPanics (λ no_args. ok t))

  pub borrowing-Keeps : {T : Type 0} (t : T) → Keeps (borrowing {H = H} t)
  unfolding borrowing
  borrowing-Keeps t P r st no_input o p c = (_, poll_ready-Completes (some _) c, p)

  pub uri-Keeps : Keeps (uri {H = H})
  unfolding uri
  uri-Keeps P r st no_input o p c = (_, poll_ready-Completes (some _) c, p)

  pub version-Keeps : Keeps (version {H = H})
  unfolding version
  version-Keeps = still-Keeps (λ r st. success (from_inner r.version))

  pub remote_addr-Keeps : Keeps (remote_addr {H = H})
  unfolding remote_addr
  remote_addr-Keeps = still-Keeps (λ r st. success (from_inner r.remote_addr))

  pub of_method-Keeps : (m : StandardMethod) → Keeps (of_method {H = H} m)
  unfolding of_method
  of_method-Keeps m = still-Keeps (λ r st. method_outcome m r)

  pub method-Keeps : Keeps (method {H = H})
  unfolding method
  method-Keeps P r st no_input o p c = (_, poll_ready-Completes (some _) c, p)

  pub path-Keeps : Keeps (path {H = H})
  unfolding path
  path-Keeps =
      handle-Keeps uri (async_fn (λ u. some (ok (H.path (into_inner u))))) uri-Keeps
        (async_fn-NeverPanics (λ u. ok (H.path (into_inner u))))

  pub param-Keeps : {T : Type 0} (from_str : Str → Option T) → Keeps (param {H = H} from_str)
  unfolding param
  param-Keeps from_str =
      recover_forward-Keeps
        (handle_filter param_str (async_fn (λ found. some (parse_param from_str found))))
        (async_fn (λ e. some (ok not_found))) (recover_type forward_param)
        (handle-Keeps param_str (async_fn (λ found. some (parse_param from_str found)))
          param_str-Keeps (async_fn-NeverPanics (parse_param from_str)))
        (async_fn-NeverPanics (λ e. ok not_found))

  pub literal-eq-some :
      (value : Str) {F : Filter H (Unit {0}) (Unit {0})}
      → literal value ≡ some F
      → literal_filter value ≡ F
  unfolding literal
  literal-eq-some value e = some-injective_if (str_eq value [] || contains b'/' value) e
