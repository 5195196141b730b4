-- ===== src/Filter/Ready.antt =====
-- src/filter/ready.rs: filters that answer at once.
use myth.Prelude.{◌≡◌, Option, none, some}
use myth.Http.{Http}
use myth.Request.{Request, RequestState}
use myth.Outcome.{Outcome, RequestOutcome}
use myth.Future.{poll_ready}
use myth.Future.Sequence.{poll_ready-Completes}
use myth.Filter.{Filter, Runs}

unfoldable pub finish :
    {H : Http} {S : Type 0}
    → Option (RequestState H × Outcome H (Unit {0}) S)
    → Option (RequestOutcome H (Unit {0}) S)
finish (some (st, o)) = some (record { request_state = st; outcome = o })
finish none = none

-- `ready_filter`: `func` may change the request state.
unfoldable pub ready_filter :
    {H : Http} {S : Type 0}
    → (Request H → RequestState H → Option (RequestState H × Outcome H (Unit {0}) S))
    → Filter H (Unit {0}) S
unfolding poll_ready finish
ready_filter {H} {S} func = record {
  Future = Option (RequestOutcome H (Unit {0}) S);
  execute = λ r st i. finish (func r st);
  poll = poll_ready;
}

-- Run on a request, such a filter comes to what its function gives, and to nothing else.
pub ready_filter-Runs :
    {H : Http} {S : Type 0}
    (func : Request H → RequestState H → Option (RequestState H × Outcome H (Unit {0}) S))
    (r : Request H) (st : RequestState H) (o : Option (RequestOutcome H (Unit {0}) S))
    → Runs (ready_filter func) r st tt o
    → o ≡ finish (func r st)
unfolding ready_filter
ready_filter-Runs func r st o c = poll_ready-Completes (finish (func r st)) c
