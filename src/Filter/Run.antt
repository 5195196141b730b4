-- ===== src/Filter/Run.antt =====
-- Runs of the combinators, put together from runs of their parts, where the handlers wait for nothing.
use mathlib.Core.Option
use mathlib.Core.Path.{subst}
use myth.Prelude.{Option, none, some, ◌≡◌, refl, sym, Result, ok, err}
use myth.Http.{Http}
use myth.Request.{Request, RequestState}
use myth.Errors.{BoxedFilterError, TypeId, ErrorOf, box, recover_type}
use myth.Errors.Downcast.{downcast-box}
use myth.Outcome.{Outcome, success, error, RequestOutcome, map_request_outcome, from_result}
use myth.Forward.{Forwarding}
use myth.Future.{async_fn}
use myth.Future.Sequence.{Completes-poll_ready}
use myth.Tuple.{One, from_inner, Append}
use myth.Filter.{Filter, Runs}
use myth.Filter.And.{and_filter}
use myth.Filter.And.Meaning.{and-Runs}
use myth.Filter.Handle.{handle_filter}
use myth.Filter.Handle.Meaning.{handle-Runs, handled}
use myth.Filter.Or.{reset}
use myth.Filter.Recover.{recover_filter}
use myth.Filter.Recover.Meaning.{recover-Runs, RecoverError, recovered}
use myth.Filter.RecoverForward.{recover_forward_filter}
use myth.Filter.RecoverForward.Meaning.{recover_forward-Runs, ForwardError, redirected}
use myth.Filter.Untuple.{untuple_filter}
use myth.Filter.Untuple.Meaning.{taken_out, untuple-Runs}

module _ {H : Http} where
  -- An outcome in a state.
  abbrev pub came_to :
      {I S : Type 0} → RequestState H → Outcome H I S → Option (RequestOutcome H I S)
  came_to st outcome = some (record { request_state = st; outcome = outcome })

  module _ (r : Request H) (st st' : RequestState H) where
    module _ {I S Ok : Type 0} (T : Filter H I S) (f : S → Option (Result Ok (BoxedFilterError H)))
        (i : I) where
      pub handle_success :
          (s : S)
          → Runs T r st i (came_to st' (success s))
          → Runs (handle_filter T (async_fn f)) r st i (Option.map (handled st') (f s))
      handle_success s c =
          (handle-Runs T (async_fn f) r st i _).1
            (came_to st' (success s), c, (f s, Completes-poll_ready (f s), refl))

      pub handle_error :
          (e : BoxedFilterError H)
          → Runs T r st i (came_to st' (error e))
          → Runs (handle_filter T (async_fn f)) r st i (came_to st' (error e))
      handle_error e c = (handle-Runs T (async_fn f) r st i _).1 (came_to st' (error e), c, refl)

    module _ {I S₁ S₂ : Type 0} (A : Filter H (Unit {0}) S₁) (B : Filter H I S₂)
        (both : Append S₁ S₂) (i : I) where
      pub and_success :
          (s : S₁) (o : Option (RequestOutcome H I S₂))
          → Runs A r st tt (came_to st' (success s))
          → Runs B r st' i o
          → Runs (and_filter A B both) r st i (Option.map (map_request_outcome (both.join s)) o)
      and_success s o c d =
          (and-Runs A B both r st i _).1 (came_to st' (success s), c, (o, d, refl))

      pub and_error :
          (e : BoxedFilterError H)
          → Runs A r st tt (came_to st' (error e))
          → Runs (and_filter A B both) r st i (came_to st' (error e))
      and_error e c = (and-Runs A B both r st i _).1 (came_to st' (error e), c, refl)

    module _ {S : Type 0} (T : Filter H (Unit {0}) S) (t : TypeId H)
        (f : One (ErrorOf H t) → Option (Result Forwarding (BoxedFilterError H))) where
      pub recover_forward_success :
          (s : S)
          → Runs T r st tt (came_to st' (success s))
          → Runs
              (recover_forward_filter T (async_fn f) (recover_type t))
              r
              st
              tt
              (came_to st' (success s))
      recover_forward_success s c =
          (recover_forward-Runs T (async_fn f) (recover_type t) r st _).1
            (came_to st' (success s), c, refl)

      pub recover_forward_error :
          (e : ErrorOf H t)
          → Runs T r st tt (came_to st' (error (box t e)))
          → Runs
              (recover_forward_filter T (async_fn f) (recover_type t))
              r
              st
              tt
              (Option.map (redirected st') (f (from_inner e)))
      recover_forward_error e c = (recover_forward-Runs T (async_fn f) (recover_type t) r st _).1 (
        came_to st' (error (box t e)),
        c,
        subst
            (λ found.
              ForwardError T (async_fn f) (recover_type t) r st' found
                (Option.map (redirected st') (f (from_inner e))))
            (sym (downcast-box t e)) (f (from_inner e), Completes-poll_ready _, refl),
      )

    module _ {I V : Type 0} (T : Filter H I (One V)) (t : TypeId H)
        (f : One (ErrorOf H t) → Option (Result V (BoxedFilterError H))) (i : I) where
      pub recover_success :
          (s : One V)
          → Runs T r st i (came_to st' (success s))
          → Runs
              (recover_filter T (async_fn f) (recover_type t))
              r
              st
              i
              (came_to (reset st.current_path_index st') (success s))
      recover_success s c =
          (recover-Runs T (async_fn f) (recover_type t) r st i _).1
            (came_to st' (success s), c, refl)

      pub recover_error :
          (e : ErrorOf H t)
          → Runs T r st i (came_to st' (error (box t e)))
          → Runs (recover_filter T (async_fn f) (recover_type t)) r st i (
              Option.map
                (recovered st.current_path_index (reset st.current_path_index st'))
                (f (from_inner e)))
      recover_error e c = (recover-Runs T (async_fn f) (recover_type t) r st i _).1 (
        came_to st' (error (box t e)),
        c,
        subst
            (λ found.
              RecoverError T (async_fn f) (recover_type t) r st.current_path_index st' found (
                Option.map (recovered st.current_path_index (reset st.current_path_index st'))
                  (f (from_inner e))))
            (sym (downcast-box t e)) (f (from_inner e), Completes-poll_ready _, refl),
      )

  pub untuple_run :
      {I V : Type 0} (T : Filter H I (One V)) (r : Request H) (st : RequestState H) (i : I)
      (o : Option (RequestOutcome H I (One V)))
      → Runs T r st i o
      → Runs (untuple_filter T) r st i (Option.map taken_out o)
  untuple_run T r st i o c = (untuple-Runs T r st i _).1 (o, c, refl)

  -- A result as the outcome in a state.
  abbrev pub result_in :
      {I V : Type 0} → RequestState H → Result V (BoxedFilterError H) → RequestOutcome H I V
  result_in st (ok v) = record { request_state = st; outcome = success v }
  result_in st (err e) = record { request_state = st; outcome = error e }

  untuple-handled :
      {I V : Type 0} (st : RequestState H) (o : Option (Result V (BoxedFilterError H)))
      → Option.map taken_out (Option.map (handled {I = I} st) o)
        ≡ Option.map (result_in {I = I} st) o
  unfolding from_result
  untuple-handled st none = refl
  untuple-handled st (some (ok v)) = refl
  untuple-handled st (some (err e)) = refl

  pub untuple_handle_success :
      {I S V : Type 0} (T : Filter H I S) (f : S → Option (Result V (BoxedFilterError H)))
      (r : Request H) (st st' : RequestState H) (i : I) (s : S)
      → Runs T r st i (came_to st' (success s))
      → Runs
          (untuple_filter (handle_filter T (async_fn f)))
          r
          st
          i
          (Option.map (result_in st') (f s))
  untuple_handle_success T f r st st' i s c =
      subst (Runs (untuple_filter (handle_filter T (async_fn f))) r st i)
        (untuple-handled st' (f s))
        (untuple_run (handle_filter T (async_fn f)) r st i _ (handle_success r st st' T f i s c))
