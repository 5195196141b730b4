-- ===== src/Filter/Handle.antt =====
-- src/filter/handle.rs: an asynchronous function of a filter's success.
pub mod Meaning
use myth.Prelude.{Option, none, some, Result, ok, err, map_ok}
use myth.Http.{Http}
use myth.Request.{Request, RequestState}
use myth.Errors.{BoxedFilterError}
use myth.Outcome.{Outcome, success, error, forward, RequestOutcome, from_result}
use myth.Future.{Poll, ready, waiting, panicked, AsyncTryFn}
use myth.Tuple.{One, from_inner}
use myth.Filter.{Filter}

-- `HandleFuture`
pub data HandleFuture (H : Http) (FutureT FutureF : Type 0) : Type 0 where
  filter : FutureT → HandleFuture H FutureT FutureF
  func : FutureF → Option (RequestState H) → HandleFuture H FutureT FutureF

module _ {H : Http} {I S Ok : Type 0} (T : Filter H I S)
    (F : AsyncTryFn S Ok (BoxedFilterError H)) where
  abbrev pub State : Type 0
  State = HandleFuture H T.Future F.State

  pub finish_func :
      Option (RequestState H)
      → Result Ok (BoxedFilterError H)
      → Poll State (RequestOutcome H I (One Ok))
  finish_func none result = panicked
  finish_func (some st) result =
      ready (record { request_state = st; outcome = from_result (map_ok from_inner result) })

  -- `poll` in the state `Func`
  pub poll_func : F.State → Option (RequestState H) → Poll State (RequestOutcome H I (One Ok))
  poll_func future request_state = elim (F.poll future) [
    | ready result ↦ finish_func request_state result
    | waiting f ↦ waiting (func f request_state)
    | panicked ↦ panicked
  ]

  pub after_filter : RequestState H → Outcome H I S → Poll State (RequestOutcome H I (One Ok))
  after_filter st (success s) = poll_func (F.call s) (some st)
  after_filter st (error e) = ready (record { request_state = st; outcome = error e })
  after_filter st (forward c w) = ready (record { request_state = st; outcome = forward c w })

  pub poll_handle : State → Poll State (RequestOutcome H I (One Ok))
  poll_handle (filter future) = elim (T.poll future) [
    | ready o ↦ after_filter o.request_state o.outcome
    | waiting f ↦ waiting (filter f)
    | panicked ↦ panicked
  ]
  poll_handle (func future request_state) = poll_func future request_state

  unfoldable pub handle_filter : Filter H I (One Ok)
  unfolding poll_handle after_filter poll_func finish_func
  handle_filter = record {
    Future = State;
    execute = λ request st input. filter (T.execute request st input);
    poll = poll_handle;
  }
