-- ===== src/Filter/Halts/Handlers.antt =====
-- Futures that are done after a finite number of polls: the other combinators.
use mathlib.Core.Path.{subst}
use myth.Prelude.{ℕ, Option, none, some, Result, ok, err, refl}
use myth.Http.{Http}
use myth.Request.{Request, RequestState}
use myth.Errors.{BoxedFilterError, Recoverable}
use myth.Outcome.{Outcome, success, error, forward, RequestOutcome}
use myth.Forward.{Forwarding}
use myth.Future.{AsyncTryFn, async_fn}
use myth.Future.Sequence.{Completes-poll_ready}
use myth.Tuple.{Append, One, from_inner}
use myth.Filter.{Filter, Runs}
use myth.Filter.Halts.{Halts, Answering}
use myth.Filter.Ready.{ready_filter, finish}
use myth.Filter.Recover.{recover_filter}
use myth.Filter.Recover.Meaning.{RecoverError, RecoverWith, RecoverSpec, recover-Runs}
use myth.Filter.RecoverForward.{recover_forward_filter}
use myth.Filter.RecoverForward.Meaning.{
  ForwardError, ForwardWith, ForwardSpec, recover_forward-Runs,
}
use myth.Filter.Untuple.{untuple_filter}
use myth.Filter.Untuple.Meaning.{untuple-Runs}
use myth.Filter.Receive.{receive_filter}
use myth.Filter.Receive.Meaning.{receive-Runs}
use myth.Filter.Dynamic.{dynamic, dynamic-Runs}

pub ready_filter-Halts :
    {H : Http} {S : Type 0}
    (func : Request H → RequestState H → Option (RequestState H × Outcome H (Unit {0}) S))
    → Halts (ready_filter func)
unfolding ready_filter
ready_filter-Halts func r st input p =
    (finish (func r st), Completes-poll_ready (finish (func r st)))

-- A handler that waits for nothing.
pub async_fn-Answering :
    {Args Ok Err : Type 0} (f : Args → Option (Result Ok Err)) → Answering (async_fn f)
async_fn-Answering f args = (f args, Completes-poll_ready (f args))

module _ {H : Http} {I V E : Type 0} (T : Filter H I (One V))
    (F : AsyncTryFn (One E) V (BoxedFilterError H)) (as_error : Recoverable H E) (halts : Halts T)
    (answering : Answering F) where
  RecoverError-total :
      (r : Request H) (k : ℕ) (st : RequestState H) (e : Result E (BoxedFilterError H))
      → (o : Option (RequestOutcome H I (One V))) × RecoverError T F as_error r k st e o
  RecoverError-total r k st (ok e) = let (o₂, c) = answering (from_inner e) in (_, (o₂, c, refl))
  RecoverError-total r k st (err e) = (_, refl)

  RecoverWith-total :
      (r : Request H) (k : ℕ) (st : RequestState H) (outcome : Outcome H I (One V))
      → (o : Option (RequestOutcome H I (One V))) × RecoverWith T F as_error r k st outcome o
  RecoverWith-total r k st (success s) = (_, refl)
  RecoverWith-total r k st (error e) = RecoverError-total r k st (as_error.recover e)
  RecoverWith-total r k st (forward c w) = (_, refl)

  RecoverSpec-total :
      (r : Request H) (k : ℕ) (o₁ : Option (RequestOutcome H I (One V)))
      → (o : Option (RequestOutcome H I (One V))) × RecoverSpec T F as_error r k o₁ o
  RecoverSpec-total r k none = (_, refl)
  RecoverSpec-total r k (some o₁) = RecoverWith-total r k o₁.request_state o₁.outcome

  pub recover-Halts : Halts (recover_filter T F as_error)
  recover-Halts r st input p =
      let (o₁, c) = halts r st input p in
      let (o, s) = RecoverSpec-total r st.current_path_index o₁ in
      (o, (recover-Runs T F as_error r st input o).1 (o₁, c, s))

module _ {H : Http} {S E : Type 0} (T : Filter H (Unit {0}) S)
    (F : AsyncTryFn (One E) Forwarding (BoxedFilterError H)) (as_error : Recoverable H E)
    (halts : Halts T) (answering : Answering F) where
  ForwardError-total :
      (r : Request H) (st : RequestState H) (e : Result E (BoxedFilterError H))
      → (o : Option (RequestOutcome H (Unit {0}) S)) × ForwardError T F as_error r st e o
  ForwardError-total r st (ok e) = let (o₂, c) = answering (from_inner e) in (_, (o₂, c, refl))
  ForwardError-total r st (err e) = (_, refl)

  ForwardWith-total :
      (r : Request H) (st : RequestState H) (outcome : Outcome H (Unit {0}) S)
      → (o : Option (RequestOutcome H (Unit {0}) S)) × ForwardWith T F as_error r st outcome o
  ForwardWith-total r st (success s) = (_, refl)
  ForwardWith-total r st (error e) = ForwardError-total r st (as_error.recover e)
  ForwardWith-total r st (forward c w) = (_, refl)

  ForwardSpec-total :
      (r : Request H) (o₁ : Option (RequestOutcome H (Unit {0}) S))
      → (o : Option (RequestOutcome H (Unit {0}) S)) × ForwardSpec T F as_error r o₁ o
  ForwardSpec-total r none = (_, refl)
  ForwardSpec-total r (some o₁) = ForwardWith-total r o₁.request_state o₁.outcome

  pub recover_forward-Halts : Halts (recover_forward_filter T F as_error)
  recover_forward-Halts r st input p =
      let (o₁, c) = halts r st input p in
      let (o, s) = ForwardSpec-total r o₁ in
      (o, (recover_forward-Runs T F as_error r st o).1 (o₁, c, s))

pub untuple-Halts :
    {H : Http} {I V : Type 0} (T : Filter H I (One V)) → Halts T → Halts (untuple_filter T)
untuple-Halts T halts r st input p =
    let (o₁, c) = halts r st input p in (_, (untuple-Runs T r st input _).1 (o₁, c, refl))

pub receive-Halts :
    {H : Http} {I S R : Type 0} (T : Filter H I S) (in_front : Append R I) (out_front : Append R S)
    → Halts T
    → Halts (receive_filter T in_front out_front)
receive-Halts T in_front out_front halts r st input p =
    let (front, rest) = in_front.part input in
    let (o₁, c) = halts r st rest p in
    subst
      (λ i.
        (o : Option (RequestOutcome _ _ _)) × Runs (receive_filter T in_front out_front) r st i o)
      (in_front.join-part input)
      (_, (receive-Runs T in_front out_front r st front rest _).1 (o₁, c, refl))

pub dynamic-Halts : {H : Http} {I S : Type 0} (T : Filter H I S) → Halts T → Halts (dynamic T)
dynamic-Halts T halts r st input p =
    let (o, c) = halts r st input p in (o, (dynamic-Runs T r st input o).1 c)
