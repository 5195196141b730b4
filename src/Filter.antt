-- ===== src/Filter.antt =====
-- src/filter/mod.rs: filters, and what running one on a request comes to.
pub mod Ready
pub mod And
pub mod Or
pub mod Then
pub mod Handle
pub mod Recover
pub mod RecoverForward
pub mod Untuple
pub mod Receive
pub mod Dynamic
pub mod Run
pub mod Keeps
pub mod Halts
pub mod Raises
use myth.Prelude.{ℕ, ◌≡◌, Option, none, some, ◌≢◌}
use myth.Http.{Http}
use myth.Request.{Request, RequestState}
use myth.Request.Paths.{InPath}
use myth.Outcome.{RequestOutcome}
use myth.Future.{Poll, Completes, drive}

-- `FilterBase` and `FilterExecute`: `I` is the input, and `S` the success.
pub record Filter (H : Http) (I S : Type 0) : Type 1 where
  pub Future : Type 0
  pub execute : Request H → RequestState H → I → Future
  pub poll : Future → Poll Future (RequestOutcome H I S)

module _ {H : Http} {I S : Type 0} (F : Filter H I S) (r : Request H) where
  -- Run on the request in the state and on the input, the filter comes to the outcome, or panics
  -- (`none`), after as many polls as it takes.
  abbrev pub Runs : RequestState H → I → Option (RequestOutcome H I S) → Type 0
  Runs st i o = Completes F.poll (F.execute r st i) o

  abbrev pub run_for : ℕ → RequestState H → I → Option (Option (RequestOutcome H I S))
  run_for n st i = drive F.poll n (F.execute r st i)
