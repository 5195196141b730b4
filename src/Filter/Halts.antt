-- ===== src/Filter/Halts.antt =====
-- Filters whose futures are done after a finite number of polls: each combinator gives one if the
-- filters and the handlers that it combines do.
pub mod Handlers
use mathlib.Core.Option
use mathlib.Core.Path.{subst}
use myth.Prelude.{ℕ, Option, none, some, Result, ok, err, refl, ◌≡◌, sym}
use myth.Http.{Http}
use myth.Request.{Request, RequestState}
use myth.Errors.{BoxedFilterError, Recoverable}
use myth.Outcome.{Outcome, success, error, forward, RequestOutcome, map_request_outcome}
use myth.Forward.{Forwarding}
use myth.Future.{AsyncTryFn, Completes}
use myth.Tuple.{Append, One, into_inner, from_inner}
use myth.Filter.{Filter, Runs}
use myth.Filter.Keeps.{Sound, Keeps}
use myth.Filter.Keeps.Combinators.{reset-Sound}
use myth.Filter.And.{and_filter}
use myth.Filter.And.Meaning.{AndThen, AndSpec, and-Runs}
use myth.Filter.Or.{or_filter, reset}
use myth.Filter.Or.Meaning.{OrElse, OrSpec, or-Runs}
use myth.Filter.Then.{then_filter}
use myth.Filter.Then.Meaning.{ThenWith, ThenSpec, then-Runs}
use myth.Filter.Handle.{handle_filter}
use myth.Filter.Handle.Meaning.{HandleWith, HandleSpec, handle-Runs}
use myth.Filter.Recover.{recover_filter}
use myth.Filter.Recover.Meaning.{RecoverError, RecoverWith, RecoverSpec, recover-Runs}
use myth.Filter.RecoverForward.{recover_forward_filter}
use myth.Filter.RecoverForward.Meaning.{
  ForwardError, ForwardWith, ForwardSpec, recover_forward-Runs,
}
use myth.Filter.Untuple.{untuple_filter}
use myth.Filter.Untuple.Meaning.{untuple-Runs}
use myth.Filter.Receive.{receive_filter}
use myth.Filter.Receive.Meaning.{receive-Runs}
use myth.Filter.Dynamic.{dynamic, dynamic-Runs}

-- On whatever the filter is run, from a path index inside the path and with a body that ends, it comes to
-- an outcome or panics.
abbrev pub Halts : {H : Http} {I S : Type 0} → Filter H I S → Type 0
Halts {H} {I} {S} F =
    (r : Request H) (st : RequestState H) (input : I)
    → Sound (Unit {0}) r st
    → (o : Option (RequestOutcome H I S)) × Runs F r st input o

-- The same of a handler.
abbrev pub Answering : {Args Ok Err : Type 0} → AsyncTryFn Args Ok Err → Type 0
Answering {Args} {Ok} {Err} F =
    (args : Args) → (o : Option (Result Ok Err)) × Completes F.poll (F.call args) o

module _ {H : Http} {I S₁ S₂ : Type 0} (A : Filter H (Unit {0}) S₁) (B : Filter H I S₂)
    (both : Append S₁ S₂) (keeps_a : Keeps A) (halts_a : Halts A) (halts_b : Halts B) where
  AndThen-total :
      (r : Request H) (input : I) (st : RequestState H) (outcome : Outcome H (Unit {0}) S₁)
      → Sound (Unit {0}) r st
      → (o : Option (RequestOutcome H I both.Both)) × AndThen A B both r input st outcome o
  AndThen-total r input st (success s) p = let (o₂, c) = halts_b r st input p in (_, (o₂, c, refl))
  AndThen-total r input st (error e) p = (_, refl)
  AndThen-total r input st (forward c w) p = (_, refl)

  pub and-Halts : Halts (and_filter A B both)
  and-Halts r st input p =
      let (o₁, c) = halts_a r st tt p in
      let (x, e, q) = keeps_a (Unit {0}) r st tt o₁ p c in
      let (o, s) =
        subst (λ y. (o : Option (RequestOutcome H I both.Both)) × AndSpec A B both r input y o)
          (sym e) (AndThen-total r input x.request_state x.outcome q) in
      (o, (and-Runs A B both r st input o).1 (o₁, c, s))

module _ {H : Http} {I S : Type 0} (A B : Filter H I S) (keeps_a : Keeps A) (halts_a : Halts A)
    (halts_b : Halts B) where
  OrElse-total :
      (r : Request H) (k : ℕ) (st : RequestState H) (outcome : Outcome H I S)
      → Sound (Unit {0}) r (reset k st)
      → (o : Option (RequestOutcome H I S)) × OrElse A B r k st outcome o
  OrElse-total r k st (success s) p = (_, refl)
  OrElse-total r k st (error e) p = (_, refl)
  OrElse-total r k st (forward c w) p =
      let (o₂, d) = halts_b r (reset k st) c p in (_, (o₂, d, refl))

  pub or-Halts : Halts (or_filter A B)
  or-Halts r st input p =
      let (o₁, c) = halts_a r st input p in
      let (x, e, q) = keeps_a (Unit {0}) r st input o₁ p c in
      let (o, s) =
        subst (λ y. (o : Option (RequestOutcome H I S)) × OrSpec A B r st.current_path_index y o)
          (sym e)
          (OrElse-total r st.current_path_index x.request_state x.outcome
            (reset-Sound (Unit {0}) r st x.request_state p q)) in
      (o, (or-Runs A B r st input o).1 (o₁, c, s))

module _ {H : Http} {R S₁ S : Type 0} (both : Append R S₁) (A : Filter H (Unit {0}) S₁)
    (B : Filter H both.Both S) (keeps_a : Keeps A) (halts_a : Halts A) (halts_b : Halts B) where
  ThenWith-total :
      (r : Request H) (input : R) (st : RequestState H) (outcome : Outcome H (Unit {0}) S₁)
      → Sound (Unit {0}) r st
      → (o : Option (RequestOutcome H R S)) × ThenWith both A B r input st outcome o
  ThenWith-total r input st (success s) p =
      let (o₂, c) = halts_b r st (both.join input s) p in (_, (o₂, c, refl))
  ThenWith-total r input st (error e) p = (_, refl)
  ThenWith-total r input st (forward c w) p = (_, refl)

  pub then-Halts : Halts (then_filter both A B)
  then-Halts r st input p =
      let (o₁, c) = halts_a r st tt p in
      let (x, e, q) = keeps_a (Unit {0}) r st tt o₁ p c in
      let (o, s) =
        subst (λ y. (o : Option (RequestOutcome H R S)) × ThenSpec both A B r input y o) (sym e)
          (ThenWith-total r input x.request_state x.outcome q) in
      (o, (then-Runs both A B r st input o).1 (o₁, c, s))

module _ {H : Http} {I S Ok : Type 0} (T : Filter H I S) (F : AsyncTryFn S Ok (BoxedFilterError H))
    (halts : Halts T) (answering : Answering F) where
  HandleWith-total :
      (r : Request H) (st : RequestState H) (outcome : Outcome H I S)
      → (o : Option (RequestOutcome H I (One Ok))) × HandleWith T F r st outcome o
  HandleWith-total r st (success s) = let (o₂, c) = answering s in (_, (o₂, c, refl))
  HandleWith-total r st (error e) = (_, refl)
  HandleWith-total r st (forward c w) = (_, refl)

  HandleSpec-total :
      (r : Request H) (o₁ : Option (RequestOutcome H I S))
      → (o : Option (RequestOutcome H I (One Ok))) × HandleSpec T F r o₁ o
  HandleSpec-total r none = (_, refl)
  HandleSpec-total r (some o₁) = HandleWith-total r o₁.request_state o₁.outcome

  pub handle-Halts : Halts (handle_filter T F)
  handle-Halts r st input p =
      let (o₁, c) = halts r st input p in
      let (o, s) = HandleSpec-total r o₁ in (o, (handle-Runs T F r st input o).1 (o₁, c, s))
