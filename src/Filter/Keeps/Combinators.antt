-- ===== src/Filter/Keeps/Combinators.antt =====
-- Each combinator keeps the path index inside the path if the filters that it combines do.
use mathlib.Core.Option
use mathlib.Core.Path.{subst}
use myth.Prelude.{Option, ◌≡◌, ap, ◌∙◌}
use myth.Http.{Http}
use myth.Request.{Request, RequestState}
use myth.Outcome.{Outcome, success, error, forward, RequestOutcome, map_request_outcome, map_input}
use myth.Forward.{Forwarding}
use myth.Tuple.{Append}
use myth.Filter.{Filter}
use myth.Filter.Keeps.{Sound, Kept, Keeps}
use myth.Filter.And.{and_filter}
use myth.Filter.And.Meaning.{AndThen, AndSpec, and-Runs}
use myth.Filter.Or.{or_filter, reset}
use myth.Filter.Or.Meaning.{OrElse, OrSpec, or-Runs, joined, join_forwards}
use myth.Filter.Then.{then_filter, front}
use myth.Filter.Then.Meaning.{ThenWith, ThenSpec, then-Runs}

module _ {H : Http} {C S D T : Type 0} (P : Type 0) (r : Request H) where
  -- An outcome mapped by a function that keeps the state.
  pub Kept-map :
      (f : RequestOutcome H C S → RequestOutcome H D T)
      → ((x : RequestOutcome H C S) → Sound P r x.request_state → Sound P r (f x).request_state)
      → (o : Option (RequestOutcome H C S)) (o' : Option (RequestOutcome H D T)) → Kept P r o
      → o' ≡ Option.map f o
      → Kept P r o'
  Kept-map f keep o o' (x, e, p) e' = (f x, e' ∙ ap (Option.map f) e, keep x p)

-- The index that was noted at the start is inside the path.
pub reset-Sound :
    {H : Http} (P : Type 0) (r : Request H) (st st' : RequestState H)
    → Sound P r st
    → Sound P r st'
    → Sound P r (reset st.current_path_index st')
reset-Sound P r st st' (p, k) (q, k') =
    (record { before = p.before; after = p.after; whole = p.whole; at = p.at }, k')

module _ {H : Http} {I S₁ S₂ : Type 0} (A : Filter H (Unit {0}) S₁) (B : Filter H I S₂)
    (both : Append S₁ S₂) (keeps_a : Keeps A) (keeps_b : Keeps B) where
  AndThen-Kept :
      (P : Type 0) (r : Request H) (input : I) (st : RequestState H)
      (outcome : Outcome H (Unit {0}) S₁) (o : Option (RequestOutcome H I both.Both))
      → Sound P r st
      → AndThen A B both r input st outcome o
      → Kept P r o
  unfolding map_request_outcome
  AndThen-Kept P r input st (success s) o p (o₂, c, e) =
      Kept-map P r (map_request_outcome (both.join s)) (λ x q. q) o₂ o (keeps_b P r st input o₂ p c)
        e
  AndThen-Kept P r input st (error x) o p e = (_, e, p)
  AndThen-Kept P r input st (forward c w) o p e = (_, e, p)

  pub and-Keeps : Keeps (and_filter A B both)
  and-Keeps P r st input o p c =
      let (o₁, c₁, spec) = (and-Runs A B both r st input o).0 c in
      let (x, e, q) = keeps_a P r st tt o₁ p c₁ in
      AndThen-Kept P r input x.request_state x.outcome o q
        (subst (λ y. AndSpec A B both r input y o) e spec)

module _ {H : Http} {I S : Type 0} (A B : Filter H I S) (keeps_a : Keeps A)
    (keeps_b : Keeps B) where
  join_forwards-Sound :
      (P : Type 0) (r : Request H) (st : RequestState H) (w : Forwarding)
      → Sound P r st
      → (x : RequestOutcome H I S) → Sound P r x.request_state
      → Sound P r (join_forwards st.current_path_index w x).request_state
  join_forwards-Sound P r st w p x q = go x.request_state x.outcome q
    where
      go :
          (st' : RequestState H) (outcome : Outcome H I S)
          → Sound P r st'
          → Sound P r (joined st.current_path_index w st' outcome).request_state
      go st' (success s) q = q
      go st' (error e) q = q
      go st' (forward c v) q = reset-Sound P r st st' p q

  OrElse-Kept :
      (P : Type 0) (r : Request H) (st : RequestState H)
      → Sound P r st
      → (st' : RequestState H) (outcome : Outcome H I S) (o : Option (RequestOutcome H I S))
      → Sound P r st'
      → OrElse A B r st.current_path_index st' outcome o
      → Kept P r o
  OrElse-Kept P r st p st' (success s) o q e = (_, e, q)
  OrElse-Kept P r st p st' (error x) o q e = (_, e, q)
  OrElse-Kept P r st p st' (forward c w) o q (o₂, c₂, e) =
      Kept-map P r (join_forwards st.current_path_index w) (join_forwards-Sound P r st w p) o₂ o
        (keeps_b P r _ c o₂ (reset-Sound P r st st' p q) c₂) e

  pub or-Keeps : Keeps (or_filter A B)
  or-Keeps P r st input o p c =
      let (o₁, c₁, spec) = (or-Runs A B r st input o).0 c in
      let (x, e, q) = keeps_a P r st input o₁ p c₁ in
      OrElse-Kept P r st p x.request_state x.outcome o q
        (subst (λ y. OrSpec A B r st.current_path_index y o) e spec)

module _ {H : Http} {R S₁ S : Type 0} (both : Append R S₁) (A : Filter H (Unit {0}) S₁)
    (B : Filter H both.Both S) (keeps_a : Keeps A) (keeps_b : Keeps B) where
  ThenWith-Kept :
      (P : Type 0) (r : Request H) (input : R) (st : RequestState H)
      (outcome : Outcome H (Unit {0}) S₁) (o : Option (RequestOutcome H R S))
      → Sound P r st
      → ThenWith both A B r input st outcome o
      → Kept P r o
  unfolding map_input
  ThenWith-Kept P r input st (success s) o p (o₂, c, e) =
      Kept-map P r (map_input (front both A B)) (λ x q. q) o₂ o (keeps_b P r st _ o₂ p c) e
  ThenWith-Kept P r input st (error x) o p e = (_, e, p)
  ThenWith-Kept P r input st (forward c w) o p e = (_, e, p)

  pub then-Keeps : Keeps (then_filter both A B)
  then-Keeps P r st input o p c =
      let (o₁, c₁, spec) = (then-Runs both A B r st input o).0 c in
      let (x, e, q) = keeps_a P r st tt o₁ p c₁ in
      ThenWith-Kept P r input x.request_state x.outcome o q
        (subst (λ y. ThenSpec both A B r input y o) e spec)
