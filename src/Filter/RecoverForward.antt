-- ===== src/Filter/RecoverForward.antt =====
-- src/filter/recover_forward.rs: an asynchronous function from a filter's error to a forwarding.
pub mod Meaning
use myth.Prelude.{Option, none, some, Result, ok, err}
use myth.Http.{Http}
use myth.Request.{Request, RequestState}
use myth.Errors.{BoxedFilterError, Recoverable}
use myth.Outcome.{Outcome, success, error, forward, RequestOutcome}
use myth.Future.{Poll, ready, waiting, panicked, AsyncTryFn}
use myth.Forward.{Forwarding}
use myth.Tuple.{One, from_inner}
use myth.Filter.{Filter}

-- `RecoverForwardFuture`
pub data RecoverForwardFuture (H : Http) (FutureT FutureF : Type 0) : Type 0 where
  filter : FutureT → RecoverForwardFuture H FutureT FutureF
  func : FutureF → Option (RequestState H) → RecoverForwardFuture H FutureT FutureF

module _ {H : Http} {S E : Type 0} (T : Filter H (Unit {0}) S)
    (F : AsyncTryFn (One E) Forwarding (BoxedFilterError H)) (as_error : Recoverable H E) where
  abbrev pub State : Type 0
  State = RecoverForwardFuture H T.Future F.State

  pub finish_func :
      Option (RequestState H)
      → Result Forwarding (BoxedFilterError H)
      → Poll State (RequestOutcome H (Unit {0}) S)
  finish_func none result = panicked
  finish_func (some st) (ok w) = ready (record { request_state = st; outcome = forward tt w })
  finish_func (some st) (err e) = ready (record { request_state = st; outcome = error e })

  -- `poll` in the state `Func`
  pub poll_func : F.State → Option (RequestState H) → Poll State (RequestOutcome H (Unit {0}) S)
  poll_func future request_state = elim (F.poll future) [
    | ready result ↦ finish_func request_state result
    | waiting f ↦ waiting (func f request_state)
    | panicked ↦ panicked
  ]

  pub after_recover :
      RequestState H → Result E (BoxedFilterError H) → Poll State (RequestOutcome H (Unit {0}) S)
  after_recover st (ok e) = poll_func (F.call (from_inner e)) (some st)
  after_recover st (err e) = ready (record { request_state = st; outcome = error e })

  pub after_filter :
      RequestState H → Outcome H (Unit {0}) S → Poll State (RequestOutcome H (Unit {0}) S)
  after_filter st (error e) = after_recover st (as_error.recover e)
  after_filter st (success s) = ready (record { request_state = st; outcome = success s })
  after_filter st (forward c w) = ready (record { request_state = st; outcome = forward c w })

  pub poll_recover_forward : State → Poll State (RequestOutcome H (Unit {0}) S)
  poll_recover_forward (filter future) = elim (T.poll future) [
    | ready o ↦ after_filter o.request_state o.outcome
    | waiting f ↦ waiting (filter f)
    | panicked ↦ panicked
  ]
  poll_recover_forward (func future request_state) = poll_func future request_state

  unfoldable pub recover_forward_filter : Filter H (Unit {0}) S
  unfolding poll_recover_forward after_filter after_recover poll_func finish_func
  recover_forward_filter = record {
    Future = State;
    execute = λ request st input. filter (T.execute request st tt);
    poll = poll_recover_forward;
  }
