-- ===== src/Outcome.antt =====
-- src/outcome.rs: what a filter comes to.
use myth.Prelude.{Result, ok, err}
use myth.Http.{Http}
use myth.Request.{RequestState}
use myth.Errors.{BoxedFilterError}
use myth.Forward.{Forwarding}

-- `C` is the filter's input, handed back when it forwards, and `S` what it gives on success.
pub data Outcome (H : Http) (C S : Type 0) : Type 0 where
  success : S → Outcome H C S
  error : BoxedFilterError H → Outcome H C S
  forward : C → Forwarding → Outcome H C S

pub record RequestOutcome (H : Http) (C S : Type 0) : Type 0 where
  pub request_state : RequestState H
  pub outcome : Outcome H C S

module _ {H : Http} {C S : Type 0} where
  unfoldable pub map_outcome : {S' : Type 0} → (S → S') → Outcome H C S → Outcome H C S'
  map_outcome f (success s) = success (f s)
  map_outcome f (error e) = error e
  map_outcome f (forward c w) = forward c w

  unfoldable pub map_outcome_input : {C' : Type 0} → (C → C') → Outcome H C S → Outcome H C' S
  map_outcome_input f (success s) = success s
  map_outcome_input f (error e) = error e
  map_outcome_input f (forward c w) = forward (f c) w

  -- `From<Result<S, BoxedFilterError>>`
  unfoldable pub from_result : Result S (BoxedFilterError H) → Outcome H C S
  from_result (ok s) = success s
  from_result (err e) = error e

  -- `RequestOutcome::map`
  unfoldable pub map_request_outcome :
      {S' : Type 0} → (S → S') → RequestOutcome H C S → RequestOutcome H C S'
  unfolding map_outcome
  map_request_outcome f o = record {
    request_state = o.request_state;
    outcome = map_outcome f o.outcome;
  }

  -- `RequestOutcome::map_input`
  unfoldable pub map_input : {C' : Type 0} → (C → C') → RequestOutcome H C S → RequestOutcome H C' S
  unfolding map_outcome_input
  map_input f o = record {
    request_state = o.request_state;
    outcome = map_outcome_input f o.outcome;
  }
