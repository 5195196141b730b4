-- ===== src/Filter/Untuple.antt =====
-- src/filter/untuple.rs: the tuple inside a one-tuple success.
pub mod Meaning
use myth.Http.{Http}
use myth.Outcome.{RequestOutcome, map_request_outcome}
use myth.Future.{Poll, ready, waiting, panicked}
use myth.Tuple.{One, into_inner}
use myth.Filter.{Filter}

-- `UntupleFuture`
pub data UntupleFuture (FutureT : Type 0) : Type 0 where
  future : FutureT → UntupleFuture FutureT

module _ {H : Http} {I V : Type 0} (T : Filter H I (One V)) where
  pub poll_untuple : UntupleFuture T.Future → Poll (UntupleFuture T.Future) (RequestOutcome H I V)
  poll_untuple (future f) = elim (T.poll f) [
    | ready o ↦ ready (map_request_outcome into_inner o)
    | waiting g ↦ waiting (future g)
    | panicked ↦ panicked
  ]

  unfoldable pub untuple_filter : Filter H I V
  unfolding poll_untuple
  untuple_filter = record {
    Future = UntupleFuture T.Future;
    execute = λ request st input. future (T.execute request st input);
    poll = poll_untuple;
  }
