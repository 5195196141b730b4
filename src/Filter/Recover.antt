-- ===== src/Filter/Recover.antt =====
-- src/filter/recover.rs: an asynchronous function of a filter's error, of one type or of any.
pub mod Meaning
use myth.Prelude.{ℕ, Option, none, some, Result, ok, err}
use myth.Http.{Http}
use myth.Request.{Request, RequestState}
use myth.Errors.{BoxedFilterError, Recoverable}
use myth.Outcome.{Outcome, success, error, forward, RequestOutcome}
use myth.Future.{Poll, ready, waiting, panicked, AsyncTryFn}
use myth.Tuple.{One, from_inner}
use myth.Filter.{Filter}
use myth.Filter.Or.{reset}

-- `RecoverFuture` with its `RecoverFutureState`; the last field is `path_index`.
pub data RecoverFuture (H : Http) (FutureT FutureF : Type 0) : Type 0 where
  filter : FutureT → ℕ → RecoverFuture H FutureT FutureF
  func : FutureF → Option (RequestState H) → ℕ → RecoverFuture H FutureT FutureF

module _ {H : Http} {I V E : Type 0} (T : Filter H I (One V))
    (F : AsyncTryFn (One E) V (BoxedFilterError H)) (as_error : Recoverable H E) where
  abbrev pub State : Type 0
  State = RecoverFuture H T.Future F.State

  pub finish_func :
      ℕ
      → Option (RequestState H)
      → Result V (BoxedFilterError H)
      → Poll State (RequestOutcome H I (One V))
  finish_func path_index none result = panicked
  finish_func path_index (some st) (ok v) =
      ready (record { request_state = reset path_index st; outcome = success (from_inner v) })
  finish_func path_index (some st) (err e) =
      ready (record { request_state = st; outcome = error e })

  -- `poll` in the state `Func`
  pub poll_func : F.State → Option (RequestState H) → ℕ → Poll State (RequestOutcome H I (One V))
  poll_func future request_state path_index = elim (F.poll future) [
    | ready result ↦ finish_func path_index request_state result
    | waiting f ↦ waiting (func f request_state path_index)
    | panicked ↦ panicked
  ]

  pub after_recover :
      ℕ → RequestState H → Result E (BoxedFilterError H) → Poll State (RequestOutcome H I (One V))
  after_recover path_index st (ok e) =
      poll_func (F.call (from_inner e)) (some (reset path_index st)) path_index
  after_recover path_index st (err e) = ready (record { request_state = st; outcome = error e })

  pub after_filter :
      ℕ → RequestState H → Outcome H I (One V) → Poll State (RequestOutcome H I (One V))
  after_filter path_index st (success s) =
      ready (record { request_state = reset path_index st; outcome = success s })
  after_filter path_index st (error e) = after_recover path_index st (as_error.recover e)
  after_filter path_index st (forward c w) =
      ready (record { request_state = st; outcome = forward c w })

  pub poll_recover : State → Poll State (RequestOutcome H I (One V))
  poll_recover (filter future path_index) = elim (T.poll future) [
    | ready o ↦ after_filter path_index o.request_state o.outcome
    | waiting f ↦ waiting (filter f path_index)
    | panicked ↦ panicked
  ]
  poll_recover (func future request_state path_index) = poll_func future request_state path_index

  unfoldable pub recover_filter : Filter H I (One V)
  unfolding poll_recover after_filter after_recover poll_func finish_func
  recover_filter = record {
    Future = State;
    execute = λ request st input. filter (T.execute request st input) st.current_path_index;
    poll = poll_recover;
  }
