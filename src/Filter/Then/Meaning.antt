-- ===== src/Filter/Then/Meaning.antt =====
-- What `then` comes to, in terms of what its two filters come to.
use mathlib.Core.Option
use myth.Prelude.{Option, none, some, ◌≡◌, ◌↔◌, arith}
use myth.Http.{Http}
use myth.Request.{Request, RequestState}
use myth.Outcome.{Outcome, success, error, forward, RequestOutcome, map_input}
use myth.Future.{Poll, ready, Completes, After}
use myth.Future.Sequence.{
  step, Follows, sequence_lem, map_iff, Completes-of_After, After-of_Completes,
}
use myth.Tuple.{Append}
use myth.Filter.{Filter, Runs}
use myth.Filter.Then.{first, second, State, front, poll_second, after_first, poll_then, then_filter}

module _ {H : Http} {R S₁ S : Type 0} (both : Append R S₁) (A : Filter H (Unit {0}) S₁)
    (B : Filter H both.Both S) (r : Request H) where
  -- What follows the first filter's outcome.
  abbrev pub ThenWith :
      R → RequestState H → Outcome H (Unit {0}) S₁ → Option (RequestOutcome H R S) → Type 0
  ThenWith input st (success s) o =
      (o₂ : Option (RequestOutcome H both.Both S)) × Runs B r st (both.join input s) o₂
      × (o ≡ Option.map (map_input (front both A B)) o₂)
  ThenWith input st (error e) o = o ≡ some (record { request_state = st; outcome = error e })
  ThenWith input st (forward c w) o =
      o ≡ some (record { request_state = st; outcome = forward input w })

  abbrev pub ThenSpec :
      R → Option (RequestOutcome H (Unit {0}) S₁) → Option (RequestOutcome H R S) → Type 0
  ThenSpec input none o = o ≡ none
  ThenSpec input (some o₁) o = ThenWith input o₁.request_state o₁.outcome o

  abbrev after_first_outcome :
      Option R → RequestOutcome H (Unit {0}) S₁ → Poll (State both A B) (RequestOutcome H R S)
  after_first_outcome input o = after_first both A B r o.request_state o.outcome input

  poll-first :
      (input : Option R) (f : A.Future)
      → poll_then both A B (first f r input)
        ≡ step (λ g. first g r input) (after_first_outcome input) (A.poll f)
  unfolding poll_then
  poll-first input f = ground arith

  poll-second :
      (f : B.Future)
      → poll_then both A B (second f)
        ≡ step second (λ o. ready (map_input (front both A B) o)) (B.poll f)
  unfolding poll_then poll_second
  poll-second f = ground arith

  second_iff :
      (f : B.Future) (o : Option (RequestOutcome H R S))
      → Completes (poll_then both A B) (second f) o ↔ (
          (o₂ : Option (RequestOutcome H both.Both S)) × Completes B.poll f o₂
          × (o ≡ Option.map (map_input (front both A B)) o₂))
  second_iff f o =
      map_iff B.poll (poll_then both A B) second (map_input (front both A B)) poll-second f o

  ThenWith-iff :
      (input : R) (st : RequestState H) (outcome : Outcome H (Unit {0}) S₁)
      (o : Option (RequestOutcome H R S))
      → After (poll_then both A B) (after_first both A B r st outcome (some input)) o
        ↔ ThenWith input st outcome o
  unfolding after_first
  ThenWith-iff input st (success s) o =
      let (to, from) = second_iff (B.execute r st (both.join input s)) o in
      (
        λ h. to (Completes-of_After (poll_then both A B) _ o (unfold poll_then in h)),
        λ h. unfold poll_then in After-of_Completes (poll_then both A B) (from h),
      )
  ThenWith-iff input st (error e) o = (λ h. h, λ h. h)
  ThenWith-iff input st (forward c w) o = (λ h. h, λ h. h)

  ThenSpec-iff :
      (input : R) (o₁ : Option (RequestOutcome H (Unit {0}) S₁)) (o : Option (RequestOutcome H R S))
      → Follows A.poll
          (poll_then both A B)
          (λ f. first f r (some input))
          (after_first_outcome (some input))
          (poll-first (some input))
          o₁
          o
        ↔ ThenSpec input o₁ o
  ThenSpec-iff input none o = (λ h. h, λ h. h)
  ThenSpec-iff input (some o₁) o = ThenWith-iff input o₁.request_state o₁.outcome o

  pub then-Runs :
      (st : RequestState H) (input : R) (o : Option (RequestOutcome H R S))
      → Runs (then_filter both A B) r st input o
        ↔ ((o₁ : Option (RequestOutcome H (Unit {0}) S₁)) × Runs A r st tt o₁ × ThenSpec input o₁ o)
  unfolding then_filter
  then-Runs st input o =
      sequence_lem A.poll (poll_then both A B) (λ f. first f r (some input))
        (after_first_outcome (some input)) (poll-first (some input)) (A.execute r st tt) o
        (λ o₁. ThenSpec input o₁ o) (λ o₁. ThenSpec-iff input o₁ o)
