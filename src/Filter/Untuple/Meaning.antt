-- ===== src/Filter/Untuple/Meaning.antt =====
-- What `untuple` comes to.
use mathlib.Core.Option
use myth.Prelude.{Option, ◌≡◌, ◌↔◌, refl, ap}
use myth.Http.{Http}
use myth.Request.{Request, RequestState}
use myth.Outcome.{
  Outcome, success, error, forward, RequestOutcome, map_outcome, map_request_outcome,
}
use myth.Future.{Poll, ready, waiting, panicked}
use myth.Future.Sequence.{step, map_iff}
use myth.Tuple.{One, into_inner}
use myth.Filter.{Filter, Runs}
use myth.Filter.Untuple.{future, poll_untuple, untuple_filter}

module _ {H : Http} {I V : Type 0} where
  -- An outcome with its success taken out of the one-tuple.
  abbrev pub bare : Outcome H I (One V) → Outcome H I V
  bare (success (value, none_left)) = success value
  bare (error e) = error e
  bare (forward c w) = forward c w

  abbrev pub taken_out : RequestOutcome H I (One V) → RequestOutcome H I V
  taken_out o = record { request_state = o.request_state; outcome = bare o.outcome }

  map_outcome-bare : (o : Outcome H I (One V)) → map_outcome into_inner o ≡ bare o
  unfolding map_outcome
  map_outcome-bare (success s) = refl
  map_outcome-bare (error e) = refl
  map_outcome-bare (forward c w) = refl

  pub map-taken_out :
      (o : RequestOutcome H I (One V)) → map_request_outcome into_inner o ≡ taken_out o
  unfolding map_request_outcome
  map-taken_out o =
      ap (λ x. record { request_state = o.request_state; outcome = x }) (map_outcome-bare o.outcome)

module _ {H : Http} {I V : Type 0} (T : Filter H I (One V)) (r : Request H) where
  poll-untuple :
      (f : T.Future) → poll_untuple T (future f) ≡ step future (λ o. ready (taken_out o)) (T.poll f)
  unfolding poll_untuple
  poll-untuple f = alike (T.poll f)
    where
      alike :
          (p : Poll T.Future (RequestOutcome H I (One V)))
          → (elim p [
            | ready o ↦ ready (map_request_outcome into_inner o)
            | waiting g ↦ waiting (future g)
            | panicked ↦ panicked
          ])
            ≡ step future (λ o. ready (taken_out o)) p
      alike (ready o) = ap ready (map-taken_out o)
      alike (waiting g) = refl
      alike panicked = refl

  -- `T.untuple()` comes to an outcome exactly when it is one that `T` comes to, on the same state and
  -- input, with a one-element success taken out of its tuple, and with an error or a forward, its input
  -- and its reason included, left as it is; a panic stays one.
  pub untuple-Runs :
      (st : RequestState H) (input : I) (o : Option (RequestOutcome H I V))
      → Runs (untuple_filter T) r st input o ↔ (
          (o₁ : Option (RequestOutcome H I (One V))) × Runs T r st input o₁
          × (o ≡ Option.map taken_out o₁))
  unfolding untuple_filter
  untuple-Runs st input o =
      map_iff T.poll (poll_untuple T) future taken_out poll-untuple (T.execute r st input) o
