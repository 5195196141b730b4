-- ===== src/Filter/Keeps.antt =====
-- Filters that keep the path index inside the path and do not panic, and the combinators that build
-- further ones from them. The index is where every slice of the path is taken, so a filter that is
-- given a state with its index inside the path never slices out of range. The same lemmas carry along
-- that the body ends, where it does at the start.
pub mod Combinators
pub mod Handlers
use myth.Prelude.{Option, none, some, ◌≡◌, ◌≢◌, Result}
use myth.Http.{Http}
use myth.Request.{Request, RequestState}
use myth.Request.Paths.{InPath}
use myth.Request.Body.{IsEnding}
use myth.Outcome.{RequestOutcome}
use myth.Future.{Completes, AsyncTryFn}
use myth.Filter.{Filter, Runs}

module _ {H : Http} where
  -- The path index of the state is inside the path; and if `P` holds, its body ends.
  abbrev pub Sound : Type 0 → Request H → RequestState H → Type 0
  Sound P r st = InPath r st × (P → IsEnding st.body)

  -- The result is no panic, and the state that it leaves is sound.
  abbrev pub Kept : {I S : Type 0} → Type 0 → Request H → Option (RequestOutcome H I S) → Type 0
  Kept {I} {S} P r o = (x : RequestOutcome H I S) × (o ≡ some x) × Sound P r x.request_state

  abbrev pub Keeps : {I S : Type 0} → Filter H I S → Type 1
  Keeps {I} {S} F =
      (P : Type 0) (r : Request H) (st : RequestState H) (input : I)
      (o : Option (RequestOutcome H I S))
      → Sound P r st
      → Runs F r st input o
      → Kept P r o

-- A handler that does not panic.
abbrev pub NeverPanics : {Args Ok Err : Type 0} → AsyncTryFn Args Ok Err → Type 0
NeverPanics {Args} {Ok} {Err} F =
    (args : Args) (result : Option (Result Ok Err))
    → Completes F.poll (F.call args) result
    → result ≢ none
