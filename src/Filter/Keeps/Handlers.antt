-- ===== src/Filter/Keeps/Handlers.antt =====
-- The combinators with a handler function keep the path index inside the path if the filter does and
-- the handler does not panic.
use mathlib.Core.Option
use mathlib.Core.Path.{subst}
use myth.Prelude.{Option, none, some, ◌≡◌, refl, sym, Result, ok, err}
use myth.Http.{Http}
use myth.Request.{Request, RequestState}
use myth.Errors.{BoxedFilterError, Recoverable}
use myth.Outcome.{Outcome, success, error, forward, RequestOutcome}
use myth.Future.{AsyncTryFn}
use myth.Forward.{Forwarding}
use myth.Tuple.{Append, One}
use myth.Filter.{Filter, Runs}
use myth.Filter.Or.{reset}
use myth.Filter.Keeps.{Sound, Kept, Keeps, NeverPanics}
use myth.Filter.Keeps.Combinators.{Kept-map, reset-Sound}
use myth.Filter.Handle.{handle_filter}
use myth.Filter.Handle.Meaning.{HandleWith, HandleSpec, handle-Runs, handled}
use myth.Filter.Recover.{recover_filter}
use myth.Filter.Recover.Meaning.{RecoverError, RecoverWith, RecoverSpec, recover-Runs, recovered}
use myth.Filter.RecoverForward.{recover_forward_filter}
use myth.Filter.RecoverForward.Meaning.{
  ForwardError, ForwardWith, ForwardSpec, recover_forward-Runs, redirected,
}
use myth.Filter.Untuple.{untuple_filter}
use myth.Filter.Untuple.Meaning.{taken_out, untuple-Runs}
use myth.Filter.Receive.{receive_filter}
use myth.Filter.Receive.Meaning.{put_front, receive-Runs}
use myth.Filter.Dynamic.{dynamic, dynamic-Runs}

-- What a handler that does not panic gives, as the result of a filter.
Kept-result :
    {H : Http} {C S V : Type 0} (P : Type 0) (r : Request H)
    (f : Result V (BoxedFilterError H) → RequestOutcome H C S)
    → ((x : Result V (BoxedFilterError H)) → Sound P r (f x).request_state)
    → (result : Option (Result V (BoxedFilterError H))) (o : Option (RequestOutcome H C S))
    → ¬ (result ≡ none)
    → o ≡ Option.map f result
    → Kept P r o
Kept-result P r f keep none o n e = absurd (n refl)
Kept-result P r f keep (some x) o n e = (f x, e, keep x)

module _ {H : Http} {I S Ok : Type 0} (T : Filter H I S) (F : AsyncTryFn S Ok (BoxedFilterError H))
    (keeps : Keeps T) (never : NeverPanics F) where
  HandleWith-Kept :
      (P : Type 0) (r : Request H) (st : RequestState H) (outcome : Outcome H I S)
      (o : Option (RequestOutcome H I (One Ok)))
      → Sound P r st
      → HandleWith T F r st outcome o
      → Kept P r o
  HandleWith-Kept P r st (success s) o p (result, c, e) =
      Kept-result P r (handled st) (λ x. p) result o (never s result c) e
  HandleWith-Kept P r st (error x) o p e = (_, e, p)
  HandleWith-Kept P r st (forward c w) o p e = (_, e, p)

  pub handle-Keeps : Keeps (handle_filter T F)
  handle-Keeps P r st input o p c =
      let (o₁, c₁, spec) = (handle-Runs T F r st input o).0 c in
      let (x, e, q) = keeps P r st input o₁ p c₁ in
      HandleWith-Kept P r x.request_state x.outcome o q (subst (λ y. HandleSpec T F r y o) e spec)

module _ {H : Http} {I V E : Type 0} (T : Filter H I (One V))
    (F : AsyncTryFn (One E) V (BoxedFilterError H)) (as_error : Recoverable H E) (keeps : Keeps T)
    (never : NeverPanics F) where
  recovered-Sound :
      (P : Type 0) (r : Request H) (st st' : RequestState H)
      → Sound P r st
      → Sound P r st'
      → (x : Result V (BoxedFilterError H))
      → Sound P r
          (recovered {I = I} st.current_path_index
            (reset st.current_path_index st')
            x).request_state
  recovered-Sound P r st st' p q (ok v) = reset-Sound P r st st' p q
  recovered-Sound P r st st' p q (err e) = reset-Sound P r st st' p q

  RecoverError-Kept :
      (P : Type 0) (r : Request H) (st : RequestState H)
      → Sound P r st
      → (st' : RequestState H) (e : Result E (BoxedFilterError H))
        (o : Option (RequestOutcome H I (One V)))
      → Sound P r st'
      → RecoverError T F as_error r st.current_path_index st' e o
      → Kept P r o
  RecoverError-Kept P r st p st' (ok e) o q (result, c, eo) =
      Kept-result P r (recovered st.current_path_index (reset st.current_path_index st'))
        (recovered-Sound P r st st' p q) result o (never _ result c) eo
  RecoverError-Kept P r st p st' (err e) o q eo = (_, eo, q)

  RecoverWith-Kept :
      (P : Type 0) (r : Request H) (st : RequestState H)
      → Sound P r st
      → (st' : RequestState H) (outcome : Outcome H I (One V))
        (o : Option (RequestOutcome H I (One V)))
      → Sound P r st'
      → RecoverWith T F as_error r st.current_path_index st' outcome o
      → Kept P r o
  RecoverWith-Kept P r st p st' (success s) o q e = (_, e, reset-Sound P r st st' p q)
  RecoverWith-Kept P r st p st' (error x) o q e =
      RecoverError-Kept P r st p st' (as_error.recover x) o q e
  RecoverWith-Kept P r st p st' (forward c w) o q e = (_, e, q)

  pub recover-Keeps : Keeps (recover_filter T F as_error)
  recover-Keeps P r st input o p c =
      let (o₁, c₁, spec) = (recover-Runs T F as_error r st input o).0 c in
      let (x, e, q) = keeps P r st input o₁ p c₁ in
      RecoverWith-Kept P r st p x.request_state x.outcome o q
        (subst (λ y. RecoverSpec T F as_error r st.current_path_index y o) e spec)

module _ {H : Http} {S E : Type 0} (T : Filter H (Unit {0}) S)
    (F : AsyncTryFn (One E) Forwarding (BoxedFilterError H)) (as_error : Recoverable H E)
    (keeps : Keeps T) (never : NeverPanics F) where
  redirected-Sound :
      (P : Type 0) (r : Request H) (st : RequestState H)
      → Sound P r st
      → (x : Result Forwarding (BoxedFilterError H))
      → Sound P r (redirected {S = S} st x).request_state
  redirected-Sound P r st p (ok w) = p
  redirected-Sound P r st p (err e) = p

  ForwardError-Kept :
      (P : Type 0) (r : Request H) (st : RequestState H) (e : Result E (BoxedFilterError H))
      (o : Option (RequestOutcome H (Unit {0}) S))
      → Sound P r st
      → ForwardError T F as_error r st e o
      → Kept P r o
  ForwardError-Kept P r st (ok e) o p (result, c, eo) =
      Kept-result P r (redirected st) (redirected-Sound P r st p) result o (never _ result c) eo
  ForwardError-Kept P r st (err e) o p eo = (_, eo, p)

  ForwardWith-Kept :
      (P : Type 0) (r : Request H) (st : RequestState H) (outcome : Outcome H (Unit {0}) S)
      (o : Option (RequestOutcome H (Unit {0}) S))
      → Sound P r st
      → ForwardWith T F as_error r st outcome o
      → Kept P r o
  ForwardWith-Kept P r st (success s) o p e = (_, e, p)
  ForwardWith-Kept P r st (error x) o p e = ForwardError-Kept P r st (as_error.recover x) o p e
  ForwardWith-Kept P r st (forward c w) o p e = (_, e, p)

  pub recover_forward-Keeps : Keeps (recover_forward_filter T F as_error)
  recover_forward-Keeps P r st input o p c =
      let (o₁, c₁, spec) = (recover_forward-Runs T F as_error r st o).0 c in
      let (x, e, q) = keeps P r st tt o₁ p c₁ in
      ForwardWith-Kept P r x.request_state x.outcome o q
        (subst (λ y. ForwardSpec T F as_error r y o) e spec)

module _ {H : Http} {I V : Type 0} (T : Filter H I (One V)) (keeps : Keeps T) where
  pub untuple-Keeps : Keeps (untuple_filter T)
  untuple-Keeps P r st input o p c =
      let (o₁, c₁, e) = (untuple-Runs T r st input o).0 c in
      Kept-map P r taken_out (λ x q. q) o₁ o (keeps P r st input o₁ p c₁) e

module _ {H : Http} {I S R : Type 0} (T : Filter H I S) (in_front : Append R I)
    (out_front : Append R S) (keeps : Keeps T) where
  pub receive-Keeps : Keeps (receive_filter T in_front out_front)
  receive-Keeps P r st input o p c =
      let (front, inner) = in_front.part input in
      let c' =
        subst (λ i. Runs (receive_filter T in_front out_front) r st i o)
          (sym (in_front.join-part input)) c in
      let (o₁, c₁, e) = (receive-Runs T in_front out_front r st front inner o).0 c' in
      Kept-map P r (put_front T in_front out_front r front) (λ x q. q) o₁ o
        (keeps P r st inner o₁ p c₁) e

module _ {H : Http} {I S : Type 0} (T : Filter H I S) (keeps : Keeps T) where
  pub dynamic-Keeps : Keeps (dynamic T)
  dynamic-Keeps P r st input o p c = keeps P r st input o p ((dynamic-Runs T r st input o).0 c)
