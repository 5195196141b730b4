-- ===== src/Filter/And.antt =====
-- src/filter/and.rs: two filters one after the other, their successes joined.
pub mod Meaning
use myth.Prelude.{Option, none, some}
use myth.Http.{Http}
use myth.Request.{Request, RequestState}
use myth.Outcome.{Outcome, success, error, forward, RequestOutcome, map_request_outcome}
use myth.Future.{Poll, ready, waiting, panicked}
use myth.Tuple.{Append}
use myth.Filter.{Filter}

pub data AndFuture (H : Http) (FutureA FutureB Input SuccessA : Type 0) : Type 0 where
  first : FutureA → Request H → Option Input → AndFuture H FutureA FutureB Input SuccessA
  second : FutureB → Option SuccessA → AndFuture H FutureA FutureB Input SuccessA

module _ {H : Http} {I S₁ S₂ : Type 0} (A : Filter H (Unit {0}) S₁) (B : Filter H I S₂)
    (both : Append S₁ S₂) where
  abbrev pub State : Type 0
  State = AndFuture H A.Future B.Future I S₁

  -- `request_outcome.map(|second| first_success.take().unwrap().append(second))`
  pub append_success : Option S₁ → RequestOutcome H I S₂ → Poll State (RequestOutcome H I both.Both)
  append_success (some s) o = ready (map_request_outcome (both.join s) o)
  append_success none o = elim o.outcome [
    | success t ↦ panicked
    | error e ↦ ready (record { request_state = o.request_state; outcome = error e })
    | forward c w ↦ ready (record { request_state = o.request_state; outcome = forward c w })
  ]

  -- `poll` in the state `Second`
  pub poll_second : B.Future → Option S₁ → Poll State (RequestOutcome H I both.Both)
  poll_second future first_success = elim (B.poll future) [
    | ready o ↦ append_success first_success o
    | waiting f ↦ waiting (second f first_success)
    | panicked ↦ panicked
  ]

  pub after_first :
      Request H
      → RequestState H
      → Outcome H (Unit {0}) S₁
      → Option I
      → Poll State (RequestOutcome H I both.Both)
  after_first request st outcome none = panicked
  after_first request st (success s) (some input) =
      poll_second (B.execute request st input) (some s)
  after_first request st (error e) (some input) =
      ready (record { request_state = st; outcome = error e })
  after_first request st (forward c w) (some input) =
      ready (record { request_state = st; outcome = forward input w })

  pub poll_and : State → Poll State (RequestOutcome H I both.Both)
  poll_and (first future request input) = elim (A.poll future) [
    | ready o ↦ after_first request o.request_state o.outcome input
    | waiting f ↦ waiting (first f request input)
    | panicked ↦ panicked
  ]
  poll_and (second future first_success) = poll_second future first_success

  unfoldable pub and_filter : Filter H I both.Both
  unfolding poll_and after_first poll_second append_success
  and_filter = record {
    Future = State;
    execute = λ request st input. first (A.execute request st tt) request (some input);
    poll = poll_and;
  }
