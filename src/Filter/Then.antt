-- ===== src/Filter/Then.antt =====
-- src/filter/then.rs: a filter whose success goes into a second one, behind the input.
pub mod Meaning
use myth.Prelude.{Option, none, some}
use myth.Http.{Http}
use myth.Request.{Request, RequestState}
use myth.Outcome.{Outcome, success, error, forward, RequestOutcome, map_input}
use myth.Future.{Poll, ready, waiting, panicked}
use myth.Tuple.{Append}
use myth.Filter.{Filter}

-- `ConsumeFuture`
pub data ConsumeFuture (H : Http) (FutureA FutureB R : Type 0) : Type 0 where
  first : FutureA → Request H → Option R → ConsumeFuture H FutureA FutureB R
  second : FutureB → ConsumeFuture H FutureA FutureB R

module _ {H : Http} {R S₁ S : Type 0} (both : Append R S₁) (A : Filter H (Unit {0}) S₁)
    (B : Filter H both.Both S) where
  abbrev pub State : Type 0
  State = ConsumeFuture H A.Future B.Future R

  -- `<R as Append<A::Success>>::remove(input).0`
  abbrev pub front : both.Both → R
  front input = (both.part input).0

  -- `poll` in the state `Second`
  pub poll_second : B.Future → Poll State (RequestOutcome H R S)
  poll_second future = elim (B.poll future) [
    | ready o ↦ ready (map_input front o)
    | waiting f ↦ waiting (second f)
    | panicked ↦ panicked
  ]

  pub after_first :
      Request H
      → RequestState H
      → Outcome H (Unit {0}) S₁
      → Option R
      → Poll State (RequestOutcome H R S)
  after_first request st outcome none = panicked
  after_first request st (success s) (some prepend) =
      poll_second (B.execute request st (both.join prepend s))
  after_first request st (error e) (some prepend) =
      ready (record { request_state = st; outcome = error e })
  after_first request st (forward c w) (some prepend) =
      ready (record { request_state = st; outcome = forward prepend w })

  pub poll_then : State → Poll State (RequestOutcome H R S)
  poll_then (first future request prepend) = elim (A.poll future) [
    | ready o ↦ after_first request o.request_state o.outcome prepend
    | waiting f ↦ waiting (first f request prepend)
    | panicked ↦ panicked
  ]
  poll_then (second future) = poll_second future

  unfoldable pub then_filter : Filter H R S
  unfolding poll_then after_first poll_second
  then_filter = record {
    Future = State;
    execute = λ request st input. first (A.execute request st tt) request (some input);
    poll = poll_then;
  }
