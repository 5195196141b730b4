-- ===== src/Basic/Meaning.antt =====
-- What the filters of src/basic/mod.rs come to.
use myth.Prelude.{some, ok}
use myth.Http.{Http}
use myth.Request.{Request, RequestState}
use myth.Outcome.{success, from_result}
use myth.Future.Sequence.{Completes-poll_ready}
use myth.Tuple.{from_inner}
use myth.Filter.{Runs}
use myth.Filter.Run.{came_to, handle_success}
use myth.Basic.{any, cloning}

module _ {H : Http} where
  pub any-Runs : (r : Request H) (st : RequestState H) → Runs any r st tt (came_to st (success tt))
  unfolding any
  any-Runs r st = Completes-poll_ready _

  pub cloning-Runs :
      {T : Type 0} (r : Request H) (st : RequestState H) (t : T)
      → Runs (cloning t) r st tt (came_to st (success (from_inner t)))
  unfolding cloning from_result
  cloning-Runs r st t = handle_success r st st any (λ no_args. some (ok t)) tt tt (any-Runs r st)
