-- ===== src/Filter/Raises/Handlers.antt =====
-- The errors of the combinators with a handler function, and of those that only change what a filter is
-- given or gives.
use mathlib.Core.Option
use mathlib.Core.Path.{subst}
use myth.Prelude.{ℕ, Option, none, some, ◌≡◌, ◌⊎◌, inl, inr, refl, sym, Result, ok, err}
use myth.Http.{Http}
use myth.Request.{Request, RequestState}
use myth.Errors.{BoxedFilterError, Recoverable}
use myth.Outcome.{Outcome, success, error, forward, RequestOutcome, from_result}
use myth.Forward.{Forwarding}
use myth.Future.{AsyncTryFn, Completes}
use myth.Tuple.{Append, One, from_inner}
use myth.Filter.{Filter, Runs}
use myth.Filter.Or.{reset}
use myth.Filter.Handle.{handle_filter}
use myth.Filter.Handle.Meaning.{HandleWith, HandleSpec, handle-Runs, handled}
use myth.Filter.Recover.{recover_filter}
use myth.Filter.Recover.Meaning.{RecoverError, RecoverWith, RecoverSpec, recover-Runs, recovered}
use myth.Filter.RecoverForward.{recover_forward_filter}
use myth.Filter.RecoverForward.Meaning.{
  ForwardError, ForwardWith, ForwardSpec, recover_forward-Runs, redirected,
}
use myth.Filter.Untuple.{untuple_filter}
use myth.Filter.Untuple.Meaning.{bare, taken_out, untuple-Runs}
use myth.Filter.Receive.{receive_filter}
use myth.Filter.Receive.Meaning.{with_front, put_front, receive-Runs}
use myth.Filter.Dynamic.{dynamic, dynamic-Runs}
use myth.Filter.Raises.{Fine, AllFine, Raises, HandlerRaises, AllFine-map}

-- An error that is recovered from, or one of those.
abbrev pub OrRecovered :
    {H : Http} {E : Type 0}
    → Recoverable H E
    → (BoxedFilterError H → Type 0)
    → BoxedFilterError H
    → Type 0
OrRecovered {H} {E} as_error P e = ((v : E) × (as_error.recover e ≡ ok v)) ⊎ P e

-- What is not recovered from is left as it is.
abbrev pub LeavesOthers : {H : Http} {E : Type 0} → Recoverable H E → Type 0
LeavesOthers {H} as_error = (e e' : BoxedFilterError H) → as_error.recover e ≡ err e' → e ≡ e'

module _ {H : Http} (P : BoxedFilterError H → Type 0) where
  -- The result of a handler, as the outcome of a filter.
  result-AllFine :
      {C S V : Type 0} (f : Result V (BoxedFilterError H) → RequestOutcome H C S)
      → ((v : V) → Fine P (f (ok v)).outcome)
      → ((e : BoxedFilterError H) → P e → Fine P (f (err e)).outcome)
      → (result : Option (Result V (BoxedFilterError H))) (o : Option (RequestOutcome H C S))
      → ((e : BoxedFilterError H) → result ≡ some (err e) → P e)
      → o ≡ Option.map f result
      → AllFine P o
  result-AllFine f good bad none o h e = subst (AllFine P) (sym e) tt
  result-AllFine f good bad (some (ok v)) o h e = subst (AllFine P) (sym e) (good v)
  result-AllFine f good bad (some (err x)) o h e = subst (AllFine P) (sym e) (bad x (h x refl))

  module _ {I S Ok : Type 0} (T : Filter H I S) (F : AsyncTryFn S Ok (BoxedFilterError H))
      (r : Request H) (raises : Raises P r T) (handler : HandlerRaises P F) where
    HandleSpec-Fine :
        (o₁ : Option (RequestOutcome H I S)) (o : Option (RequestOutcome H I (One Ok)))
        → AllFine P o₁
        → HandleSpec T F r o₁ o
        → AllFine P o
    unfolding from_result
    HandleSpec-Fine none o h e = subst (AllFine P) (sym e) tt
    HandleSpec-Fine (some x) o h spec = go x.request_state x.outcome h spec
      where
        go :
            (st : RequestState H) (x : Outcome H I S)
            → Fine P x
            → HandleWith T F r st x o
            → AllFine P o
        go st (success s) h (result, c, e) =
            result-AllFine (handled st) (λ v. tt) (λ e' p. p) result o
              (λ e' same. handler s e' (subst (Completes F.poll (F.call s)) same c)) e
        go st (error x) h e = subst (AllFine P) (sym e) h
        go st (forward c w) h e = subst (AllFine P) (sym e) tt

    pub handle-Raises : Raises P r (handle_filter T F)
    handle-Raises st input o c =
        let (o₁, c₁, spec) = (handle-Runs T F r st input o).0 c in
        HandleSpec-Fine o₁ o (raises st input o₁ c₁) spec

  module _ {I V E : Type 0} (T : Filter H I (One V)) (F : AsyncTryFn (One E) V (BoxedFilterError H))
      (as_error : Recoverable H E) (leaves : LeavesOthers as_error) (r : Request H)
      (raises : Raises (OrRecovered as_error P) r T) (handler : HandlerRaises P F) where
    RecoverError-Fine :
        (k : ℕ) (st : RequestState H) (e : BoxedFilterError H)
        (found : Result E (BoxedFilterError H)) (o : Option (RequestOutcome H I (One V)))
        → as_error.recover e ≡ found
        → OrRecovered as_error P e
        → RecoverError T F as_error r k st found o
        → AllFine P o
    RecoverError-Fine k st e (ok v) o f h (result, c, eo) =
        result-AllFine (recovered k (reset k st)) (λ x. tt) (λ e' p. p) result o
          (λ e' same.
            handler (from_inner v) e' (subst (Completes F.poll (F.call (from_inner v))) same c))
          eo
    RecoverError-Fine k st e (err e') o f (inl (v, g)) eo = absurd (cc (f, g))
    RecoverError-Fine k st e (err e') o f (inr p) eo =
        subst (AllFine P) (sym eo) (subst P (leaves e e' f) p)

    RecoverSpec-Fine :
        (k : ℕ) (o₁ o : Option (RequestOutcome H I (One V)))
        → AllFine (OrRecovered as_error P) o₁
        → RecoverSpec T F as_error r k o₁ o
        → AllFine P o
    RecoverSpec-Fine k none o h e = subst (AllFine P) (sym e) tt
    RecoverSpec-Fine k (some x) o h spec = go x.request_state x.outcome h spec
      where
        go :
            (st : RequestState H) (x : Outcome H I (One V))
            → Fine (OrRecovered as_error P) x
            → RecoverWith T F as_error r k st x o
            → AllFine P o
        go st (success s) h e = subst (AllFine P) (sym e) tt
        go st (error x) h spec = RecoverError-Fine k st x (as_error.recover x) o refl h spec
        go st (forward c w) h e = subst (AllFine P) (sym e) tt

    pub recover-Raises : Raises P r (recover_filter T F as_error)
    recover-Raises st input o c =
        let (o₁, c₁, spec) = (recover-Runs T F as_error r st input o).0 c in
        RecoverSpec-Fine st.current_path_index o₁ o (raises st input o₁ c₁) spec

  module _ {S E : Type 0} (T : Filter H (Unit {0}) S)
      (F : AsyncTryFn (One E) Forwarding (BoxedFilterError H)) (as_error : Recoverable H E)
      (leaves : LeavesOthers as_error) (r : Request H)
      (raises : Raises (OrRecovered as_error P) r T) (handler : HandlerRaises P F) where
    ForwardError-Fine :
        (st : RequestState H) (e : BoxedFilterError H) (found : Result E (BoxedFilterError H))
        (o : Option (RequestOutcome H (Unit {0}) S))
        → as_error.recover e ≡ found
        → OrRecovered as_error P e
        → ForwardError T F as_error r st found o
        → AllFine P o
    ForwardError-Fine st e (ok v) o f h (result, c, eo) =
        result-AllFine (redirected st) (λ x. tt) (λ e' p. p) result o
          (λ e' same.
            handler (from_inner v) e' (subst (Completes F.poll (F.call (from_inner v))) same c))
          eo
    ForwardError-Fine st e (err e') o f (inl (v, g)) eo = absurd (cc (f, g))
    ForwardError-Fine st e (err e') o f (inr p) eo =
        subst (AllFine P) (sym eo) (subst P (leaves e e' f) p)

    ForwardSpec-Fine :
        (o₁ o : Option (RequestOutcome H (Unit {0}) S))
        → AllFine (OrRecovered as_error P) o₁
        → ForwardSpec T F as_error r o₁ o
        → AllFine P o
    ForwardSpec-Fine none o h e = subst (AllFine P) (sym e) tt
    ForwardSpec-Fine (some x) o h spec = go x.request_state x.outcome h spec
      where
        go :
            (st : RequestState H) (x : Outcome H (Unit {0}) S)
            → Fine (OrRecovered as_error P) x
            → ForwardWith T F as_error r st x o
            → AllFine P o
        go st (success s) h e = subst (AllFine P) (sym e) tt
        go st (error x) h spec = ForwardError-Fine st x (as_error.recover x) o refl h spec
        go st (forward c w) h e = subst (AllFine P) (sym e) tt

    pub recover_forward-Raises : Raises P r (recover_forward_filter T F as_error)
    recover_forward-Raises st input o c =
        let (o₁, c₁, spec) = (recover_forward-Runs T F as_error r st o).0 c in
        ForwardSpec-Fine o₁ o (raises st tt o₁ c₁) spec

  module _ {I V : Type 0} (T : Filter H I (One V)) (r : Request H) (raises : Raises P r T) where
    bare-Fine : (x : Outcome H I (One V)) → Fine P x → Fine P (bare x)
    bare-Fine (success s) h = tt
    bare-Fine (error e) h = h
    bare-Fine (forward c w) h = tt

    pub untuple-Raises : Raises P r (untuple_filter T)
    untuple-Raises st input o c =
        let (o₁, c₁, e) = (untuple-Runs T r st input o).0 c in
        AllFine-map P taken_out (λ x. bare-Fine x.outcome) o₁ o (raises st input o₁ c₁) e

  module _ {I S R : Type 0} (T : Filter H I S) (in_front : Append R I) (out_front : Append R S)
      (r : Request H) (raises : Raises P r T) where
    with_front-Fine :
        (front : R) (x : Outcome H I S)
        → Fine P x
        → Fine P (with_front T in_front out_front r front x)
    with_front-Fine front (success s) h = tt
    with_front-Fine front (error e) h = h
    with_front-Fine front (forward c w) h = tt

    pub receive-Raises : Raises P r (receive_filter T in_front out_front)
    receive-Raises st input o c =
        let (front, inner) = in_front.part input in
        let c' =
          subst (λ i. Runs (receive_filter T in_front out_front) r st i o)
            (sym (in_front.join-part input)) c in
        let (o₁, c₁, e) = (receive-Runs T in_front out_front r st front inner o).0 c' in
        AllFine-map P (put_front T in_front out_front r front)
          (λ x. with_front-Fine front x.outcome) o₁ o (raises st inner o₁ c₁) e

  module _ {I S : Type 0} (T : Filter H I S) (r : Request H) (raises : Raises P r T) where
    pub dynamic-Raises : Raises P r (dynamic T)
    dynamic-Raises st input o c = raises st input o ((dynamic-Runs T r st input o).0 c)
