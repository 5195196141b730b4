-- ===== src/Future.antt =====
-- Futures as the combinators of src/filter poll them: a state, and a function that polls it. A poll
-- gives a result, leaves a state for the next poll, or panics.
pub mod Sequence
use myth.Prelude.{ℕ, zero, suc, ◌≡◌, Option, none, some, Result, refl, ◌∙◌, ap, sym}

pub data Poll (S A : Type 0) : Type 0 where
  ready : A → Poll S A
  waiting : S → Poll S A
  panicked : Poll S A

-- `src/generics/fns.rs`: an asynchronous function of a handler.
pub record AsyncTryFn (Args Ok Err : Type 0) : Type 1 where
  pub State : Type 0
  pub call : Args → State
  pub poll : State → Poll State (Result Ok Err)

-- What an executor does with a poll's answer.
abbrev pub resume : {S A : Type 0} → (S → Option (Option A)) → Poll S A → Option (Option A)
resume again (ready a) = some (some a)
resume again panicked = some none
resume again (waiting s) = again s

module _ {S A : Type 0} (poll : S → Poll S A) where
  -- Polled until it is done, the future in state `s` gives `some` result, or panics (`none`).
  pub data Completes : S → Option A → Type 0 where
    now : {s : S} {a : A} → poll s ≡ ready a → Completes s (some a)
    panics : {s : S} → poll s ≡ panicked → Completes s none
    later : {s s' : S} {r : Option A} → poll s ≡ waiting s' → Completes s' r → Completes s r

  -- What one poll leaves to be done.
  abbrev pub After : Poll S A → Option A → Type 0
  After (ready a) r = r ≡ some a
  After panicked r = r ≡ none
  After (waiting s) r = Completes s r

  -- An executor that polls at most `n` times; `none` if that was not enough.
  unfoldable pub drive : ℕ → S → Option (Option A)
  drive zero s = none
  drive (suc n) s = resume (drive n) (poll s)

-- The future of `std::future::ready`; `none` stands for a panic while its value was computed.
unfoldable pub poll_ready : {A : Type 0} → Option A → Poll (Option A) A
poll_ready (some a) = ready a
poll_ready none = panicked

-- An asynchronous function that waits for nothing.
abbrev pub async_fn :
    {Args Ok Err : Type 0} → (Args → Option (Result Ok Err)) → AsyncTryFn Args Ok Err
async_fn {Ok} {Err} f = record { State = Option (Result Ok Err); call = f; poll = poll_ready }

-- What an asynchronous block does with the value of a future that it awaits last, where `next` waits for
-- nothing; `none` is a panic.
unfoldable pub continue : {S A B : Type 0} → (A → Option B) → Poll S A → Poll S B
continue next (ready a) = elim (next a) [ none ↦ panicked | some b ↦ ready b ]
continue next (waiting s) = waiting s
continue next panicked = panicked
