-- ===== src/Filter/Or.antt =====
-- src/filter/or.rs: a second filter for what the first one forwards.
pub mod Meaning
use myth.Prelude.{ℕ, Option, none, some}
use myth.Http.{Http}
use myth.Request.{Request, RequestState}
use myth.Outcome.{Outcome, success, error, forward, RequestOutcome}
use myth.Future.{Poll, ready, waiting, panicked}
use myth.Forward.{Forwarding, combine}
use myth.Filter.{Filter}

-- `OrFuture` with its `OrFutureState`; the last field is `path_index`.
pub data OrFuture (H : Http) (FutureA FutureB : Type 0) : Type 0 where
  first : FutureA → Request H → ℕ → OrFuture H FutureA FutureB
  second : FutureB → Option Forwarding → ℕ → OrFuture H FutureA FutureB

-- `request_state.current_path_index = path_index`
abbrev pub reset : {H : Http} → ℕ → RequestState H → RequestState H
reset path_index st = record st { current_path_index = path_index }

module _ {H : Http} {I S : Type 0} (A B : Filter H I S) where
  abbrev pub State : Type 0
  State = OrFuture H A.Future B.Future

  pub finish_second :
      ℕ → Option Forwarding → RequestState H → Outcome H I S → Poll State (RequestOutcome H I S)
  finish_second path_index first_forwarding st (success s) =
      ready (record { request_state = st; outcome = success s })
  finish_second path_index first_forwarding st (error e) =
      ready (record { request_state = st; outcome = error e })
  finish_second path_index none st (forward c w) = panicked
  finish_second path_index (some v) st (forward c w) =
      ready (record { request_state = reset path_index st; outcome = forward c (combine v w) })

  -- `poll` in the state `Second`
  pub poll_second : B.Future → Option Forwarding → ℕ → Poll State (RequestOutcome H I S)
  poll_second future first_forwarding path_index = elim (B.poll future) [
    | ready o ↦ finish_second path_index first_forwarding o.request_state o.outcome
    | waiting f ↦ waiting (second f first_forwarding path_index)
    | panicked ↦ panicked
  ]

  pub after_first :
      Request H → ℕ → RequestState H → Outcome H I S → Poll State (RequestOutcome H I S)
  after_first request path_index st (success s) =
      ready (record { request_state = st; outcome = success s })
  after_first request path_index st (error e) =
      ready (record { request_state = st; outcome = error e })
  after_first request path_index st (forward input w) =
      poll_second (B.execute request (reset path_index st) input) (some w) path_index

  pub poll_or : State → Poll State (RequestOutcome H I S)
  poll_or (first future request path_index) = elim (A.poll future) [
    | ready o ↦ after_first request path_index o.request_state o.outcome
    | waiting f ↦ waiting (first f request path_index)
    | panicked ↦ panicked
  ]
  poll_or (second future first_forwarding path_index) =
      poll_second future first_forwarding path_index

  unfoldable pub or_filter : Filter H I S
  unfolding poll_or after_first poll_second finish_second
  or_filter = record {
    Future = State;
    execute = λ request st input. first (A.execute request st input) request st.current_path_index;
    poll = poll_or;
  }
