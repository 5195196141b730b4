-- ===== src/Filter/Dynamic.antt =====
-- src/filter/dynamic.rs: a filter behind a pointer, whose futures are boxed.
use mathlib.Core.Path.{subst}
use myth.Prelude.{Option, some, none, ◌≡◌, ◌↔◌, refl, sym, arith}
use myth.Http.{Http}
use myth.Request.{Request, RequestState}
use myth.Outcome.{RequestOutcome}
use myth.Future.{Poll, ready, waiting, panicked}
use myth.Future.Sequence.{step, Follows, sequence_lem}
use myth.Filter.{Filter, Runs}

-- `Pin<Box<dyn Future>>`
pub data BoxedFuture (FutureT : Type 0) : Type 0 where
  pin : FutureT → BoxedFuture FutureT

module _ {H : Http} {I S : Type 0} (T : Filter H I S) where
  pub poll_boxed : BoxedFuture T.Future → Poll (BoxedFuture T.Future) (RequestOutcome H I S)
  poll_boxed (pin f) = elim (T.poll f) [
    | ready o ↦ ready o
    | waiting g ↦ waiting (pin g)
    | panicked ↦ panicked
  ]

  -- `Filter::dynamic`: a `DynamicFilter` of a `BoxedFutureFilter`
  unfoldable pub dynamic : Filter H I S
  unfolding poll_boxed
  dynamic = record {
    Future = BoxedFuture T.Future;
    execute = λ request st input. pin (T.execute request st input);
    poll = poll_boxed;
  }

module _ {H : Http} {I S : Type 0} (T : Filter H I S) (r : Request H) where
  poll-boxed : (f : T.Future) → poll_boxed T (pin f) ≡ step pin (λ o. ready o) (T.poll f)
  unfolding poll_boxed
  poll-boxed f = ground arith

  same_after :
      (o o₁ : Option (RequestOutcome H I S))
      → Follows T.poll (poll_boxed T) pin (λ x. ready x) poll-boxed o₁ o ↔ (o ≡ o₁)
  same_after o none = (λ h. h, λ h. h)
  same_after o (some x) = (λ h. h, λ h. h)

  -- Dynamic dispatch changes nothing: the filter comes to what the one inside comes to.
  pub dynamic-Runs :
      (st : RequestState H) (input : I) (o : Option (RequestOutcome H I S))
      → Runs (dynamic T) r st input o ↔ Runs T r st input o
  unfolding dynamic
  dynamic-Runs st input o =
      let (to, from) =
        sequence_lem T.poll (poll_boxed T) pin (λ x. ready x) poll-boxed (T.execute r st input) o
          (λ o₁. o ≡ o₁) (λ o₁. same_after o o₁) in
      (
        λ c. let (o₁, c₁, e) = to c in subst (λ x. Runs T r st input x) (sym e) c₁,
        λ c. from (o, c, refl),
      )
