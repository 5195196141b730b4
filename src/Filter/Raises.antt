-- ===== src/Filter/Raises.antt =====
-- The errors that filters end in: each combinator ends in those of the filters and handlers that it
-- combines, less those that it recovers from.
pub mod Handlers
use mathlib.Core.Option
use mathlib.Core.Path.{subst}
use myth.Prelude.{ℕ, Option, none, some, ◌≡◌, sym, Result, err}
use myth.Http.{Http}
use myth.Request.{Request, RequestState}
use myth.Errors.{BoxedFilterError}
use myth.Outcome.{
  Outcome, success, error, forward, RequestOutcome, map_outcome, map_request_outcome, map_input,
  map_outcome_input,
}
use myth.Forward.{Forwarding}
use myth.Future.{AsyncTryFn, Completes}
use myth.Tuple.{Append}
use myth.Filter.{Filter, Runs}
use myth.Filter.And.{and_filter}
use myth.Filter.And.Meaning.{AndThen, AndSpec, and-Runs}
use myth.Filter.Or.{or_filter, reset}
use myth.Filter.Or.Meaning.{OrElse, OrSpec, or-Runs, joined, join_forwards}
use myth.Filter.Then.{then_filter, front}
use myth.Filter.Then.Meaning.{ThenWith, ThenSpec, then-Runs}

module _ {H : Http} (P : BoxedFilterError H → Type 0) where
  -- If this is an error, it is one of those.
  abbrev pub Fine : {I S : Type 0} → Outcome H I S → Type 0
  Fine (success s) = Unit
  Fine (error e) = P e
  Fine (forward c w) = Unit

  abbrev pub AllFine : {I S : Type 0} → Option (RequestOutcome H I S) → Type 0
  AllFine none = Unit
  AllFine (some x) = Fine x.outcome

  -- Run on the request, the filter ends in no other error.
  abbrev pub Raises : {I S : Type 0} → Request H → Filter H I S → Type 0
  Raises {I} {S} r F =
      (st : RequestState H) (input : I) (o : Option (RequestOutcome H I S))
      → Runs F r st input o
      → AllFine o

  -- The same of a handler.
  abbrev pub HandlerRaises : {Args Ok : Type 0} → AsyncTryFn Args Ok (BoxedFilterError H) → Type 0
  HandlerRaises {Args} F =
      (args : Args) (e : BoxedFilterError H) → Completes F.poll (F.call args) (some (err e)) → P e

  module _ {C S D T : Type 0} where
    pub AllFine-map :
        (f : RequestOutcome H C S → RequestOutcome H D T)
        → ((x : RequestOutcome H C S) → Fine x.outcome → Fine (f x).outcome)
        → (o : Option (RequestOutcome H C S)) (o' : Option (RequestOutcome H D T)) → AllFine o
        → o' ≡ Option.map f o
        → AllFine o'
    AllFine-map f keep none o' h e = subst AllFine (sym e) tt
    AllFine-map f keep (some x) o' h e = subst AllFine (sym e) (keep x h)

  map_outcome-Fine :
      {C S T : Type 0} (f : S → T) (x : Outcome H C S) → Fine x → Fine (map_outcome f x)
  unfolding map_outcome
  map_outcome-Fine f (success s) h = tt
  map_outcome-Fine f (error e) h = h
  map_outcome-Fine f (forward c w) h = tt

  pub map-Fine :
      {C S T : Type 0} (f : S → T) (x : RequestOutcome H C S)
      → Fine x.outcome
      → Fine (map_request_outcome f x).outcome
  unfolding map_request_outcome
  map-Fine f x h = map_outcome-Fine f x.outcome h

  map_outcome_input-Fine :
      {C D S : Type 0} (f : C → D) (x : Outcome H C S) → Fine x → Fine (map_outcome_input f x)
  unfolding map_outcome_input
  map_outcome_input-Fine f (success s) h = tt
  map_outcome_input-Fine f (error e) h = h
  map_outcome_input-Fine f (forward c w) h = tt

  map_input-Fine :
      {C D S : Type 0} (f : C → D) (x : RequestOutcome H C S)
      → Fine x.outcome
      → Fine (map_input f x).outcome
  unfolding map_input
  map_input-Fine f x h = map_outcome_input-Fine f x.outcome h

  joined-Fine :
      {I S : Type 0} (k : ℕ) (w : Forwarding) (st : RequestState H) (x : Outcome H I S)
      → Fine x
      → Fine (joined k w st x).outcome
  joined-Fine k w st (success s) h = tt
  joined-Fine k w st (error e) h = h
  joined-Fine k w st (forward c v) h = tt

  module _ {I S₁ S₂ : Type 0} (A : Filter H (Unit {0}) S₁) (B : Filter H I S₂) (both : Append S₁ S₂)
      (r : Request H) (raises_a : Raises r A) (raises_b : Raises r B) where
    AndThen-Fine :
        (input : I) (st : RequestState H) (x : Outcome H (Unit {0}) S₁)
        (o : Option (RequestOutcome H I both.Both))
        → Fine x
        → AndThen A B both r input st x o
        → AllFine o
    AndThen-Fine input st (success s) o h (o₂, c, e) =
        AllFine-map (map_request_outcome (both.join s)) (map-Fine (both.join s)) o₂ o
          (raises_b st input o₂ c) e
    AndThen-Fine input st (error x) o h e = subst AllFine (sym e) h
    AndThen-Fine input st (forward c w) o h e = subst AllFine (sym e) tt

    AndSpec-Fine :
        (input : I) (o₁ : Option (RequestOutcome H (Unit {0}) S₁))
        (o : Option (RequestOutcome H I both.Both))
        → AllFine o₁
        → AndSpec A B both r input o₁ o
        → AllFine o
    AndSpec-Fine input none o h e = subst AllFine (sym e) tt
    AndSpec-Fine input (some x) o h spec = AndThen-Fine input x.request_state x.outcome o h spec

    pub and-Raises : Raises r (and_filter A B both)
    and-Raises st input o c =
        let (o₁, c₁, spec) = (and-Runs A B both r st input o).0 c in
        AndSpec-Fine input o₁ o (raises_a st tt o₁ c₁) spec

  module _ {I S : Type 0} (A B : Filter H I S) (r : Request H) (raises_a : Raises r A)
      (raises_b : Raises r B) where
    OrElse-Fine :
        (k : ℕ) (st : RequestState H) (x : Outcome H I S) (o : Option (RequestOutcome H I S))
        → Fine x
        → OrElse A B r k st x o
        → AllFine o
    OrElse-Fine k st (success s) o h e = subst AllFine (sym e) tt
    OrElse-Fine k st (error x) o h e = subst AllFine (sym e) h
    OrElse-Fine k st (forward c w) o h (o₂, c₂, e) =
        AllFine-map (join_forwards k w) (λ x. joined-Fine k w x.request_state x.outcome) o₂ o
          (raises_b (reset k st) c o₂ c₂) e

    OrSpec-Fine :
        (k : ℕ) (o₁ o : Option (RequestOutcome H I S))
        → AllFine o₁
        → OrSpec A B r k o₁ o
        → AllFine o
    OrSpec-Fine k none o h e = subst AllFine (sym e) tt
    OrSpec-Fine k (some x) o h spec = OrElse-Fine k x.request_state x.outcome o h spec

    pub or-Raises : Raises r (or_filter A B)
    or-Raises st input o c =
        let (o₁, c₁, spec) = (or-Runs A B r st input o).0 c in
        OrSpec-Fine st.current_path_index o₁ o (raises_a st input o₁ c₁) spec

  module _ {R S₁ S : Type 0} (both : Append R S₁) (A : Filter H (Unit {0}) S₁)
      (B : Filter H both.Both S) (r : Request H) (raises_a : Raises r A)
      (raises_b : Raises r B) where
    ThenWith-Fine :
        (input : R) (st : RequestState H) (x : Outcome H (Unit {0}) S₁)
        (o : Option (RequestOutcome H R S))
        → Fine x
        → ThenWith both A B r input st x o
        → AllFine o
    ThenWith-Fine input st (success s) o h (o₂, c, e) =
        AllFine-map (map_input (front both A B)) (map_input-Fine (front both A B)) o₂ o
          (raises_b st (both.join input s) o₂ c) e
    ThenWith-Fine input st (error x) o h e = subst AllFine (sym e) h
    ThenWith-Fine input st (forward c w) o h e = subst AllFine (sym e) tt

    ThenSpec-Fine :
        (input : R) (o₁ : Option (RequestOutcome H (Unit {0}) S₁))
        (o : Option (RequestOutcome H R S))
        → AllFine o₁
        → ThenSpec both A B r input o₁ o
        → AllFine o
    ThenSpec-Fine input none o h e = subst AllFine (sym e) tt
    ThenSpec-Fine input (some x) o h spec = ThenWith-Fine input x.request_state x.outcome o h spec

    pub then-Raises : Raises r (then_filter both A B)
    then-Raises st input o c =
        let (o₁, c₁, spec) = (then-Runs both A B r st input o).0 c in
        ThenSpec-Fine input o₁ o (raises_a st tt o₁ c₁) spec
