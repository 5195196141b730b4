-- ===== src/Filter/Recover/Meaning.antt =====
-- What `recover` comes to, in terms of its filter and its function.
use mathlib.Core.Option
use mathlib.Core.Path.{fun_ext}
use myth.Prelude.{ℕ, Option, none, some, ◌≡◌, ◌↔◌, ◌∙◌, ap, refl, arith, Result, ok, err}
use myth.Http.{Http}
use myth.Request.{Request, RequestState}
use myth.Errors.{BoxedFilterError, Recoverable}
use myth.Outcome.{Outcome, success, error, forward, RequestOutcome}
use myth.Future.{Poll, ready, Completes, After, AsyncTryFn}
use myth.Future.Sequence.{
  step, Follows, sequence_lem, map_iff, Completes-of_After, After-of_Completes,
}
use myth.Tuple.{One, from_inner}
use myth.Filter.{Filter, Runs}
use myth.Filter.Or.{reset}
use myth.Filter.Recover.{
  filter, func, State, finish_func, poll_func, after_recover, after_filter, poll_recover,
  recover_filter,
}

-- The function's result as an outcome.
abbrev pub recovered :
    {H : Http} {I V : Type 0}
    → ℕ
    → RequestState H
    → Result V (BoxedFilterError H)
    → RequestOutcome H I (One V)
recovered path_index st (ok v) = record {
  request_state = reset path_index st;
  outcome = success (from_inner v);
}
recovered path_index st (err e) = record { request_state = st; outcome = error e }

module _ {H : Http} {I V E : Type 0} (T : Filter H I (One V))
    (F : AsyncTryFn (One E) V (BoxedFilterError H)) (as_error : Recoverable H E)
    (r : Request H) where
  -- What follows an error of the filter, by whether it is one to recover from.
  abbrev pub RecoverError :
      ℕ
      → RequestState H
      → Result E (BoxedFilterError H)
      → Option (RequestOutcome H I (One V))
      → Type 0
  RecoverError k st (ok e) o =
      (result : Option (Result V (BoxedFilterError H))) × Completes F.poll (F.call (from_inner e))
        result
      × (o ≡ Option.map (recovered k (reset k st)) result)
  RecoverError k st (err e) o = o ≡ some (record { request_state = st; outcome = error e })

  -- What follows the filter's outcome.
  abbrev pub RecoverWith :
      ℕ → RequestState H → Outcome H I (One V) → Option (RequestOutcome H I (One V)) → Type 0
  RecoverWith k st (success s) o =
      o ≡ some (record { request_state = reset k st; outcome = success s })
  RecoverWith k st (error e) o = RecoverError k st (as_error.recover e) o
  RecoverWith k st (forward c w) o = o ≡ some (record { request_state = st; outcome = forward c w })

  abbrev pub RecoverSpec :
      ℕ → Option (RequestOutcome H I (One V)) → Option (RequestOutcome H I (One V)) → Type 0
  RecoverSpec k none o = o ≡ none
  RecoverSpec k (some o₁) o = RecoverWith k o₁.request_state o₁.outcome o

  abbrev after_filter_outcome :
      ℕ → RequestOutcome H I (One V) → Poll (State T F as_error) (RequestOutcome H I (One V))
  after_filter_outcome k o = after_filter T F as_error k o.request_state o.outcome

  poll-filter :
      (k : ℕ) (f : T.Future)
      → poll_recover T F as_error (filter f k)
        ≡ step (λ g. filter g k) (after_filter_outcome k) (T.poll f)
  unfolding poll_recover
  poll-filter k f = ground arith

  finish_func-recovered :
      (k : ℕ) (st : RequestState H) (result : Result V (BoxedFilterError H))
      → finish_func T F as_error k (some st) result ≡ ready (recovered k st result)
  unfolding finish_func
  finish_func-recovered k st (ok v) = refl
  finish_func-recovered k st (err e) = refl

  poll-func_finish :
      (k : ℕ) (st : RequestState H) (f : F.State)
      → poll_recover T F as_error (func f (some st) k)
        ≡ step (λ g. func g (some st) k) (finish_func T F as_error k (some st)) (F.poll f)
  unfolding poll_recover poll_func
  poll-func_finish k st f = ground arith

  poll-func :
      (k : ℕ) (st : RequestState H) (f : F.State)
      → poll_recover T F as_error (func f (some st) k)
        ≡ step (λ g. func g (some st) k) (λ result. ready (recovered k st result)) (F.poll f)
  poll-func k st f =
      poll-func_finish k st f
      ∙ ap (λ h. step (λ g. func g (some st) k) h (F.poll f)) (fun_ext (finish_func-recovered k st))

  func_iff :
      (k : ℕ) (st : RequestState H) (f : F.State) (o : Option (RequestOutcome H I (One V)))
      → Completes (poll_recover T F as_error) (func f (some st) k) o ↔ (
          (result : Option (Result V (BoxedFilterError H))) × Completes F.poll f result
          × (o ≡ Option.map (recovered k st) result))
  func_iff k st f o =
      map_iff F.poll (poll_recover T F as_error) (λ g. func g (some st) k) (recovered k st)
        (poll-func k st) f o

  RecoverError-iff :
      (k : ℕ) (st : RequestState H) (e : Result E (BoxedFilterError H))
      (o : Option (RequestOutcome H I (One V)))
      → After (poll_recover T F as_error) (after_recover T F as_error k st e) o
        ↔ RecoverError k st e o
  unfolding after_recover
  RecoverError-iff k st (ok e) o =
      let (to, from) = func_iff k (reset k st) (F.call (from_inner e)) o in
      (
        λ h. to (Completes-of_After (poll_recover T F as_error) _ o (unfold poll_recover in h)),
        λ h. unfold poll_recover in After-of_Completes (poll_recover T F as_error) (from h),
      )
  RecoverError-iff k st (err e) o = (λ h. h, λ h. h)

  RecoverWith-iff :
      (k : ℕ) (st : RequestState H) (outcome : Outcome H I (One V))
      (o : Option (RequestOutcome H I (One V)))
      → After (poll_recover T F as_error) (after_filter T F as_error k st outcome) o
        ↔ RecoverWith k st outcome o
  unfolding after_filter
  RecoverWith-iff k st (success s) o = (λ h. h, λ h. h)
  RecoverWith-iff k st (error e) o = RecoverError-iff k st (as_error.recover e) o
  RecoverWith-iff k st (forward c w) o = (λ h. h, λ h. h)

  RecoverSpec-iff :
      (k : ℕ) (o₁ o : Option (RequestOutcome H I (One V)))
      → Follows T.poll
          (poll_recover T F as_error)
          (λ f. filter f k)
          (after_filter_outcome k)
          (poll-filter k)
          o₁
          o
        ↔ RecoverSpec k o₁ o
  RecoverSpec-iff k none o = (λ h. h, λ h. h)
  RecoverSpec-iff k (some o₁) o = RecoverWith-iff k o₁.request_state o₁.outcome o

  -- `T.recover(F)` comes to an outcome exactly when `T` comes to one from which it follows: a panic
  -- and a forward of `T` are those of the whole; a success of `T` is that of the whole with the path
  -- index of the start put back; an error of `T` that is not of the type to recover from is that of
  -- the whole; any other goes to `F`, whose value is the success, with that path index, and whose
  -- error is the error of the whole.
  pub recover-Runs :
      (st : RequestState H) (input : I) (o : Option (RequestOutcome H I (One V)))
      → Runs (recover_filter T F as_error) r st input o ↔ (
          (o₁ : Option (RequestOutcome H I (One V))) × Runs T r st input o₁
          × RecoverSpec st.current_path_index o₁ o)
  unfolding recover_filter
  recover-Runs st input o =
      let k = st.current_path_index in
      sequence_lem T.poll (poll_recover T F as_error) (λ f. filter f k) (after_filter_outcome k)
        (poll-filter k) (T.execute r st input) o (λ o₁. RecoverSpec k o₁ o)
        (λ o₁. RecoverSpec-iff k o₁ o)
