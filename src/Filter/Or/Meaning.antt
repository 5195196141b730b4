-- ===== src/Filter/Or/Meaning.antt =====
-- What `or` comes to, in terms of what its two filters come to.
use mathlib.Core.Option
use mathlib.Core.Path.{fun_ext}
use myth.Prelude.{ℕ, Option, none, some, ◌≡◌, ◌↔◌, ◌∙◌, ap, arith}
use myth.Http.{Http}
use myth.Request.{Request, RequestState}
use myth.Outcome.{Outcome, success, error, forward, RequestOutcome}
use myth.Future.{Poll, ready, Completes, After}
use myth.Future.Sequence.{
  step, Follows, sequence_lem, map_iff, Completes-of_After, After-of_Completes,
}
use myth.Forward.{Forwarding, combine}
use myth.Filter.{Filter, Runs}
use myth.Filter.Or.{
  first, second, reset, State, finish_second, poll_second, after_first, poll_or, or_filter,
}

-- The outcome of the second filter as that of the whole: a forward joins what the first filter
-- forwarded with, and puts the path index back.
abbrev pub joined :
    {H : Http} {I S : Type 0}
    → ℕ
    → Forwarding
    → RequestState H
    → Outcome H I S
    → RequestOutcome H I S
joined path_index v st (success s) = record { request_state = st; outcome = success s }
joined path_index v st (error e) = record { request_state = st; outcome = error e }
joined path_index v st (forward c w) = record {
  request_state = reset path_index st;
  outcome = forward c (combine v w);
}

abbrev pub join_forwards :
    {H : Http} {I S : Type 0} → ℕ → Forwarding → RequestOutcome H I S → RequestOutcome H I S
join_forwards path_index v o = joined path_index v o.request_state o.outcome

module _ {H : Http} {I S : Type 0} (A B : Filter H I S) (r : Request H) where
  -- What follows the first filter's outcome.
  abbrev pub OrElse : ℕ → RequestState H → Outcome H I S → Option (RequestOutcome H I S) → Type 0
  OrElse path_index st (success s) o = o ≡ some (record { request_state = st; outcome = success s })
  OrElse path_index st (error e) o = o ≡ some (record { request_state = st; outcome = error e })
  OrElse path_index st (forward c w) o =
      (o₂ : Option (RequestOutcome H I S)) × Runs B r (reset path_index st) c o₂
      × (o ≡ Option.map (join_forwards path_index w) o₂)

  abbrev pub OrSpec : ℕ → Option (RequestOutcome H I S) → Option (RequestOutcome H I S) → Type 0
  OrSpec path_index none o = o ≡ none
  OrSpec path_index (some o₁) o = OrElse path_index o₁.request_state o₁.outcome o

  abbrev after_first_outcome : ℕ → RequestOutcome H I S → Poll (State A B) (RequestOutcome H I S)
  after_first_outcome k o = after_first A B r k o.request_state o.outcome

  poll-first :
      (k : ℕ) (f : A.Future)
      → poll_or A B (first f r k) ≡ step (λ g. first g r k) (after_first_outcome k) (A.poll f)
  unfolding poll_or
  poll-first k f = ground arith

  finish_second-joined :
      (k : ℕ) (v : Forwarding) (st : RequestState H) (outcome : Outcome H I S)
      → finish_second A B k (some v) st outcome ≡ ready (joined k v st outcome)
  unfolding finish_second
  finish_second-joined k v st outcome = ground arith

  abbrev finish_outcome :
      ℕ → Forwarding → RequestOutcome H I S → Poll (State A B) (RequestOutcome H I S)
  finish_outcome k v o = finish_second A B k (some v) o.request_state o.outcome

  poll-second_finish :
      (k : ℕ) (v : Forwarding) (f : B.Future)
      → poll_or A B (second f (some v) k)
        ≡ step (λ g. second g (some v) k) (finish_outcome k v) (B.poll f)
  unfolding poll_or poll_second
  poll-second_finish k v f = ground arith

  poll-second :
      (k : ℕ) (v : Forwarding) (f : B.Future)
      → poll_or A B (second f (some v) k)
        ≡ step (λ g. second g (some v) k) (λ o. ready (join_forwards k v o)) (B.poll f)
  poll-second k v f =
      poll-second_finish k v f
      ∙ ap (λ h. step (λ g. second g (some v) k) h (B.poll f))
          (fun_ext (λ o. finish_second-joined k v o.request_state o.outcome))

  second_iff :
      (k : ℕ) (v : Forwarding) (f : B.Future) (o : Option (RequestOutcome H I S))
      → Completes (poll_or A B) (second f (some v) k) o ↔ (
          (o₂ : Option (RequestOutcome H I S)) × Completes B.poll f o₂
          × (o ≡ Option.map (join_forwards k v) o₂))
  second_iff k v f o =
      map_iff B.poll (poll_or A B) (λ g. second g (some v) k) (join_forwards k v) (poll-second k v)
        f o

  OrElse-iff :
      (k : ℕ) (st : RequestState H) (outcome : Outcome H I S) (o : Option (RequestOutcome H I S))
      → After (poll_or A B) (after_first A B r k st outcome) o ↔ OrElse k st outcome o
  unfolding after_first
  OrElse-iff k st (success s) o = (λ h. h, λ h. h)
  OrElse-iff k st (error e) o = (λ h. h, λ h. h)
  OrElse-iff k st (forward c w) o =
      let (to, from) = second_iff k w (B.execute r (reset k st) c) o in
      (
        λ h. to (Completes-of_After (poll_or A B) _ o (unfold poll_or in h)),
        λ h. unfold poll_or in After-of_Completes (poll_or A B) (from h),
      )

  OrSpec-iff :
      (k : ℕ) (o₁ o : Option (RequestOutcome H I S))
      → Follows A.poll (poll_or A B) (λ f. first f r k) (after_first_outcome k) (poll-first k) o₁ o
        ↔ OrSpec k o₁ o
  OrSpec-iff k none o = (λ h. h, λ h. h)
  OrSpec-iff k (some o₁) o = OrElse-iff k o₁.request_state o₁.outcome o

  -- `A.or(B)` comes to an outcome exactly when `A`, run on the same state and input, comes to one
  -- from which it follows: a panic, a success or an error of `A` is that of the whole, and `B` is not
  -- run; if `A` forwards, `B` runs on the input that `A` hands back, in the state that `A` left with
  -- the path index of the start put back, and if `B` forwards too, the whole forwards with both
  -- forwardings combined and that path index again.
  pub or-Runs :
      (st : RequestState H) (input : I) (o : Option (RequestOutcome H I S))
      → Runs (or_filter A B) r st input o ↔ (
          (o₁ : Option (RequestOutcome H I S)) × Runs A r st input o₁
          × OrSpec st.current_path_index o₁ o)
  unfolding or_filter
  or-Runs st input o =
      let k = st.current_path_index in
      sequence_lem A.poll (poll_or A B) (λ f. first f r k) (after_first_outcome k) (poll-first k)
        (A.execute r st input) o (λ o₁. OrSpec k o₁ o) (λ o₁. OrSpec-iff k o₁ o)
