-- ===== src/Method.antt =====
-- src/method.rs: a filter for each of the methods of the macro `all_methods`, and one for any.
use mathlib.Core.Logic.{ite}
use myth.Prelude.{Option, some}
use myth.Http.{Http, StandardMethod}
use myth.Request.{Request}
use myth.Outcome.{Outcome, success, forward, RequestOutcome}
use myth.Forward.{method_not_allowed, attempted}
use myth.Future.{poll_ready}
use myth.Tuple.{One, from_inner}
use myth.Filter.{Filter}
use myth.Filter.Ready.{ready_filter}

module _ {H : Http} where
  unfoldable pub method_outcome : StandardMethod → Request H → Outcome H (Unit {0}) (Unit {0})
  method_outcome m request =
      ite (H.Method-discrete request.method (H.standard m)) (success tt)
        (forward tt (method_not_allowed (attempted m)))

  -- `get`, `post` and the others
  unfoldable pub of_method : StandardMethod → Filter H (Unit {0}) (Unit {0})
  unfolding ready_filter method_outcome
  of_method m = ready_filter (λ request st. some (st, method_outcome m request))

  -- `MethodFilter`
  unfoldable pub method : Filter H (Unit {0}) (One H.Method)
  unfolding poll_ready
  method = record {
    Future = Option (RequestOutcome H (Unit {0}) (One H.Method));
    execute = λ request st input.
        some (record { request_state = st; outcome = success (from_inner request.method) });
    poll = poll_ready;
  }
