-- ===== src/Filter/And/Meaning.antt =====
-- What `and` comes to, in terms of what its two filters come to.
use mathlib.Core.Option
use myth.Prelude.{Option, none, some, ◌≡◌, ◌↔◌, arith}
use myth.Http.{Http}
use myth.Request.{Request, RequestState}
use myth.Outcome.{Outcome, success, error, forward, RequestOutcome, map_request_outcome}
use myth.Future.{Poll, Completes, After}
use myth.Future.Sequence.{
  step, Follows, sequence_lem, map_iff, Completes-of_After, After-of_Completes,
}
use myth.Tuple.{Append}
use myth.Filter.{Filter, Runs}
use myth.Filter.And.{
  first, second, State, append_success, poll_second, after_first, poll_and, and_filter,
}

module _ {H : Http} {I S₁ S₂ : Type 0} (A : Filter H (Unit {0}) S₁) (B : Filter H I S₂)
    (both : Append S₁ S₂) (r : Request H) where
  -- What follows the first filter's outcome.
  abbrev pub AndThen :
      I → RequestState H → Outcome H (Unit {0}) S₁ → Option (RequestOutcome H I both.Both) → Type 0
  AndThen input st (success s) o =
      (o₂ : Option (RequestOutcome H I S₂)) × Runs B r st input o₂
      × (o ≡ Option.map (map_request_outcome (both.join s)) o₂)
  AndThen input st (error e) o = o ≡ some (record { request_state = st; outcome = error e })
  AndThen input st (forward c w) o =
      o ≡ some (record { request_state = st; outcome = forward input w })

  abbrev pub AndSpec :
      I → Option (RequestOutcome H (Unit {0}) S₁) → Option (RequestOutcome H I both.Both) → Type 0
  AndSpec input none o = o ≡ none
  AndSpec input (some o₁) o = AndThen input o₁.request_state o₁.outcome o

  abbrev after_first_outcome :
      Option I
      → RequestOutcome H (Unit {0}) S₁
      → Poll (State A B both) (RequestOutcome H I both.Both)
  after_first_outcome input o = after_first A B both r o.request_state o.outcome input

  poll-first :
      (input : Option I) (f : A.Future)
      → poll_and A B both (first f r input)
        ≡ step (λ g. first g r input) (after_first_outcome input) (A.poll f)
  unfolding poll_and
  poll-first input f = ground arith

  poll-second :
      (s : S₁) (f : B.Future)
      → poll_and A B both (second f (some s))
        ≡ step (λ g. second g (some s)) (append_success A B both (some s)) (B.poll f)
  unfolding poll_and poll_second append_success
  poll-second s f = ground arith

  second_iff :
      (s : S₁) (f : B.Future) (o : Option (RequestOutcome H I both.Both))
      → Completes (poll_and A B both) (second f (some s)) o ↔ (
          (o₂ : Option (RequestOutcome H I S₂)) × Completes B.poll f o₂
          × (o ≡ Option.map (map_request_outcome (both.join s)) o₂))
  unfolding append_success
  second_iff s f o =
      map_iff B.poll (poll_and A B both) (λ g. second g (some s))
        (map_request_outcome (both.join s)) (poll-second s) f o

  AndThen-iff :
      (input : I) (st : RequestState H) (outcome : Outcome H (Unit {0}) S₁)
      (o : Option (RequestOutcome H I both.Both))
      → After (poll_and A B both) (after_first A B both r st outcome (some input)) o
        ↔ AndThen input st outcome o
  unfolding after_first
  AndThen-iff input st (success s) o =
      let (to, from) = second_iff s (B.execute r st input) o in
      (
        λ h. to (Completes-of_After (poll_and A B both) _ o (unfold poll_and in h)),
        λ h. unfold poll_and in After-of_Completes (poll_and A B both) (from h),
      )
  AndThen-iff input st (error e) o = (λ h. h, λ h. h)
  AndThen-iff input st (forward c w) o = (λ h. h, λ h. h)

  AndSpec-iff :
      (input : I) (o₁ : Option (RequestOutcome H (Unit {0}) S₁))
      (o : Option (RequestOutcome H I both.Both))
      → Follows A.poll
          (poll_and A B both)
          (λ f. first f r (some input))
          (after_first_outcome (some input))
          (poll-first (some input))
          o₁
          o
        ↔ AndSpec input o₁ o
  AndSpec-iff input none o = (λ h. h, λ h. h)
  AndSpec-iff input (some o₁) o = AndThen-iff input o₁.request_state o₁.outcome o

  -- `A.and(B)` comes to an outcome exactly when `A`, run on the same state, comes to one from which
  -- it follows: a panic, an error or a forward of `A` is that of the whole, with the input of the
  -- whole handed back on a forward, and `B` is not run; on a success of `A`, `B` runs on the state
  -- that `A` left and on the input, and its successes are joined behind those of `A`.
  pub and-Runs :
      (st : RequestState H) (input : I) (o : Option (RequestOutcome H I both.Both))
      → Runs (and_filter A B both) r st input o
        ↔ ((o₁ : Option (RequestOutcome H (Unit {0}) S₁)) × Runs A r st tt o₁ × AndSpec input o₁ o)
  unfolding and_filter
  and-Runs st input o =
      sequence_lem A.poll (poll_and A B both) (λ f. first f r (some input))
        (after_first_outcome (some input)) (poll-first (some input)) (A.execute r st tt) o
        (λ o₁. AndSpec input o₁ o) (λ o₁. AndSpec-iff input o₁ o)
