-- ===== src/Filter/RecoverForward/Meaning.antt =====
-- What `recover_forward` comes to, in terms of its filter and its function.
use mathlib.Core.Option
use mathlib.Core.Path.{fun_ext}
use myth.Prelude.{Option, none, some, ◌≡◌, ◌↔◌, ◌∙◌, ap, refl, arith, Result, ok, err}
use myth.Http.{Http}
use myth.Request.{Request, RequestState}
use myth.Errors.{BoxedFilterError, Recoverable}
use myth.Outcome.{Outcome, success, error, forward, RequestOutcome}
use myth.Future.{Poll, ready, Completes, After, AsyncTryFn}
use myth.Future.Sequence.{
  step, Follows, sequence_lem, map_iff, Completes-of_After, After-of_Completes,
}
use myth.Forward.{Forwarding}
use myth.Tuple.{One, from_inner}
use myth.Filter.{Filter, Runs}
use myth.Filter.RecoverForward.{
  filter, func, State, finish_func, poll_func, after_recover, after_filter, poll_recover_forward,
  recover_forward_filter,
}

-- The function's result as an outcome.
abbrev pub redirected :
    {H : Http} {S : Type 0}
    → RequestState H
    → Result Forwarding (BoxedFilterError H)
    → RequestOutcome H (Unit {0}) S
redirected st (ok w) = record { request_state = st; outcome = forward tt w }
redirected st (err e) = record { request_state = st; outcome = error e }

module _ {H : Http} {S E : Type 0} (T : Filter H (Unit {0}) S)
    (F : AsyncTryFn (One E) Forwarding (BoxedFilterError H)) (as_error : Recoverable H E)
    (r : Request H) where
  -- What follows an error of the filter, by whether it is one to recover from.
  abbrev pub ForwardError :
      RequestState H
      → Result E (BoxedFilterError H)
      → Option (RequestOutcome H (Unit {0}) S)
      → Type 0
  ForwardError st (ok e) o =
      (result : Option (Result Forwarding (BoxedFilterError H))) × Completes F.poll
        (F.call (from_inner e)) result
      × (o ≡ Option.map (redirected st) result)
  ForwardError st (err e) o = o ≡ some (record { request_state = st; outcome = error e })

  -- What follows the filter's outcome.
  abbrev pub ForwardWith :
      RequestState H → Outcome H (Unit {0}) S → Option (RequestOutcome H (Unit {0}) S) → Type 0
  ForwardWith st (success s) o = o ≡ some (record { request_state = st; outcome = success s })
  ForwardWith st (error e) o = ForwardError st (as_error.recover e) o
  ForwardWith st (forward c w) o = o ≡ some (record { request_state = st; outcome = forward c w })

  abbrev pub ForwardSpec :
      Option (RequestOutcome H (Unit {0}) S) → Option (RequestOutcome H (Unit {0}) S) → Type 0
  ForwardSpec none o = o ≡ none
  ForwardSpec (some o₁) o = ForwardWith o₁.request_state o₁.outcome o

  abbrev after_filter_outcome :
      RequestOutcome H (Unit {0}) S → Poll (State T F as_error) (RequestOutcome H (Unit {0}) S)
  after_filter_outcome o = after_filter T F as_error o.request_state o.outcome

  poll-filter :
      (f : T.Future)
      → poll_recover_forward T F as_error (filter f) ≡ step filter after_filter_outcome (T.poll f)
  unfolding poll_recover_forward
  poll-filter f = ground arith

  finish_func-redirected :
      (st : RequestState H) (result : Result Forwarding (BoxedFilterError H))
      → finish_func T F as_error (some st) result ≡ ready (redirected st result)
  unfolding finish_func
  finish_func-redirected st (ok w) = refl
  finish_func-redirected st (err e) = refl

  poll-func_finish :
      (st : RequestState H) (f : F.State)
      → poll_recover_forward T F as_error (func f (some st))
        ≡ step (λ g. func g (some st)) (finish_func T F as_error (some st)) (F.poll f)
  unfolding poll_recover_forward poll_func
  poll-func_finish st f = ground arith

  poll-func :
      (st : RequestState H) (f : F.State)
      → poll_recover_forward T F as_error (func f (some st))
        ≡ step (λ g. func g (some st)) (λ result. ready (redirected st result)) (F.poll f)
  poll-func st f =
      poll-func_finish st f
      ∙ ap (λ h. step (λ g. func g (some st)) h (F.poll f)) (fun_ext (finish_func-redirected st))

  func_iff :
      (st : RequestState H) (f : F.State) (o : Option (RequestOutcome H (Unit {0}) S))
      → Completes (poll_recover_forward T F as_error) (func f (some st)) o ↔ (
          (result : Option (Result Forwarding (BoxedFilterError H))) × Completes F.poll f result
          × (o ≡ Option.map (redirected st) result))
  func_iff st f o =
      map_iff F.poll (poll_recover_forward T F as_error) (λ g. func g (some st)) (redirected st)
        (poll-func st) f o

  ForwardError-iff :
      (st : RequestState H) (e : Result E (BoxedFilterError H))
      (o : Option (RequestOutcome H (Unit {0}) S))
      → After (poll_recover_forward T F as_error) (after_recover T F as_error st e) o
        ↔ ForwardError st e o
  unfolding after_recover
  ForwardError-iff st (ok e) o =
      let (to, from) = func_iff st (F.call (from_inner e)) o in
      (
        λ h. to (
            Completes-of_After (poll_recover_forward T F as_error) _ o
              (unfold poll_recover_forward in h)),
        λ h.
            unfold poll_recover_forward in
            After-of_Completes (poll_recover_forward T F as_error) (from h),
      )
  ForwardError-iff st (err e) o = (λ h. h, λ h. h)

  ForwardWith-iff :
      (st : RequestState H) (outcome : Outcome H (Unit {0}) S)
      (o : Option (RequestOutcome H (Unit {0}) S))
      → After (poll_recover_forward T F as_error) (after_filter T F as_error st outcome) o
        ↔ ForwardWith st outcome o
  unfolding after_filter
  ForwardWith-iff st (success s) o = (λ h. h, λ h. h)
  ForwardWith-iff st (error e) o = ForwardError-iff st (as_error.recover e) o
  ForwardWith-iff st (forward c w) o = (λ h. h, λ h. h)

  ForwardSpec-iff :
      (o₁ o : Option (RequestOutcome H (Unit {0}) S))
      → Follows T.poll
          (poll_recover_forward T F as_error)
          filter
          after_filter_outcome
          poll-filter
          o₁
          o
        ↔ ForwardSpec o₁ o
  ForwardSpec-iff none o = (λ h. h, λ h. h)
  ForwardSpec-iff (some o₁) o = ForwardWith-iff o₁.request_state o₁.outcome o

  -- `T.recover_forward(F)` comes to an outcome exactly when `T` comes to one from which it follows: a
  -- panic, a success and a forward of `T` are those of the whole, and so is an error that is not of
  -- the type to recover from; any other error goes to `F`, and the whole forwards with what `F`
  -- gives, or has the error of `F`. The state is the one that `T` left, on every branch.
  pub recover_forward-Runs :
      (st : RequestState H) (o : Option (RequestOutcome H (Unit {0}) S))
      → Runs (recover_forward_filter T F as_error) r st tt o
        ↔ ((o₁ : Option (RequestOutcome H (Unit {0}) S)) × Runs T r st tt o₁ × ForwardSpec o₁ o)
  unfolding recover_forward_filter
  recover_forward-Runs st o =
      sequence_lem T.poll (poll_recover_forward T F as_error) filter after_filter_outcome
        poll-filter (T.execute r st tt) o (λ o₁. ForwardSpec o₁ o) (λ o₁. ForwardSpec-iff o₁ o)
