-- ===== src/Filter/Handle/Meaning.antt =====
-- What `handle` comes to, in terms of its filter and its function.
use mathlib.Core.Option
use myth.Prelude.{Option, none, some, ◌≡◌, ◌↔◌, arith, Result, map_ok}
use myth.Http.{Http}
use myth.Request.{Request, RequestState}
use myth.Errors.{BoxedFilterError}
use myth.Outcome.{Outcome, success, error, forward, RequestOutcome, from_result}
use myth.Future.{Poll, ready, Completes, After, AsyncTryFn}
use myth.Future.Sequence.{
  step, Follows, sequence_lem, map_iff, Completes-of_After, After-of_Completes,
}
use myth.Tuple.{One, from_inner}
use myth.Filter.{Filter, Runs}
use myth.Filter.Handle.{
  filter, func, State, finish_func, poll_func, after_filter, poll_handle, handle_filter,
}

-- The function's result as an outcome.
abbrev pub handled :
    {H : Http} {I Ok : Type 0}
    → RequestState H
    → Result Ok (BoxedFilterError H)
    → RequestOutcome H I (One Ok)
handled st result = record { request_state = st; outcome = from_result (map_ok from_inner result) }

module _ {H : Http} {I S Ok : Type 0} (T : Filter H I S) (F : AsyncTryFn S Ok (BoxedFilterError H))
    (r : Request H) where
  -- What follows the filter's outcome.
  abbrev pub HandleWith :
      RequestState H → Outcome H I S → Option (RequestOutcome H I (One Ok)) → Type 0
  HandleWith st (success s) o =
      (result : Option (Result Ok (BoxedFilterError H))) × Completes F.poll (F.call s) result
      × (o ≡ Option.map (handled st) result)
  HandleWith st (error e) o = o ≡ some (record { request_state = st; outcome = error e })
  HandleWith st (forward c w) o = o ≡ some (record { request_state = st; outcome = forward c w })

  abbrev pub HandleSpec :
      Option (RequestOutcome H I S) → Option (RequestOutcome H I (One Ok)) → Type 0
  HandleSpec none o = o ≡ none
  HandleSpec (some o₁) o = HandleWith o₁.request_state o₁.outcome o

  abbrev after_filter_outcome :
      RequestOutcome H I S → Poll (State T F) (RequestOutcome H I (One Ok))
  after_filter_outcome o = after_filter T F o.request_state o.outcome

  poll-filter :
      (f : T.Future) → poll_handle T F (filter f) ≡ step filter after_filter_outcome (T.poll f)
  unfolding poll_handle
  poll-filter f = ground arith

  poll-func :
      (st : RequestState H) (f : F.State)
      → poll_handle T F (func f (some st))
        ≡ step (λ g. func g (some st)) (λ result. ready (handled st result)) (F.poll f)
  unfolding poll_handle poll_func finish_func
  poll-func st f = ground arith

  func_iff :
      (st : RequestState H) (f : F.State) (o : Option (RequestOutcome H I (One Ok)))
      → Completes (poll_handle T F) (func f (some st)) o ↔ (
          (result : Option (Result Ok (BoxedFilterError H))) × Completes F.poll f result
          × (o ≡ Option.map (handled st) result))
  func_iff st f o =
      map_iff F.poll (poll_handle T F) (λ g. func g (some st)) (handled st) (poll-func st) f o

  HandleWith-iff :
      (st : RequestState H) (outcome : Outcome H I S) (o : Option (RequestOutcome H I (One Ok)))
      → After (poll_handle T F) (after_filter T F st outcome) o ↔ HandleWith st outcome o
  unfolding after_filter
  HandleWith-iff st (success s) o =
      let (to, from) = func_iff st (F.call s) o in
      (
        λ h. to (Completes-of_After (poll_handle T F) _ o (unfold poll_handle in h)),
        λ h. unfold poll_handle in After-of_Completes (poll_handle T F) (from h),
      )
  HandleWith-iff st (error e) o = (λ h. h, λ h. h)
  HandleWith-iff st (forward c w) o = (λ h. h, λ h. h)

  HandleSpec-iff :
      (o₁ : Option (RequestOutcome H I S)) (o : Option (RequestOutcome H I (One Ok)))
      → Follows T.poll (poll_handle T F) filter after_filter_outcome poll-filter o₁ o
        ↔ HandleSpec o₁ o
  HandleSpec-iff none o = (λ h. h, λ h. h)
  HandleSpec-iff (some o₁) o = HandleWith-iff o₁.request_state o₁.outcome o

  -- `T.handle(F)` comes to an outcome exactly when `T` comes to one from which it follows: a panic,
  -- an error or a forward of `T` is that of the whole, and `F` is not called; on a success of `T`,
  -- `F` is called on it, and its value is the success and its error the error of the whole, in the
  -- state that `T` left.
  pub handle-Runs :
      (st : RequestState H) (input : I) (o : Option (RequestOutcome H I (One Ok)))
      → Runs (handle_filter T F) r st input o
        ↔ ((o₁ : Option (RequestOutcome H I S)) × Runs T r st input o₁ × HandleSpec o₁ o)
  unfolding handle_filter
  handle-Runs st input o =
      sequence_lem T.poll (poll_handle T F) filter after_filter_outcome poll-filter
        (T.execute r st input) o (λ o₁. HandleSpec o₁ o) (λ o₁. HandleSpec-iff o₁ o)
