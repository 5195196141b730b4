-- ===== src/Filter/Receive.antt =====
-- src/filter/receive.rs: an input that is kept aside and put before what the filter gives back.
pub mod Meaning
use myth.Prelude.{Option, none, some}
use myth.Http.{Http}
use myth.Request.{RequestState}
use myth.Outcome.{Outcome, success, error, forward, RequestOutcome}
use myth.Future.{Poll, ready, waiting, panicked}
use myth.Tuple.{Append}
use myth.Filter.{Filter}

-- `ReceiveFuture`
pub data ReceiveFuture (FutureT R : Type 0) : Type 0 where
  receiving : FutureT → Option R → ReceiveFuture FutureT R

module _ {H : Http} {I S R : Type 0} (T : Filter H I S) (in_front : Append R I)
    (out_front : Append R S) where
  unfoldable pub received :
      R → RequestState H → Outcome H I S → RequestOutcome H in_front.Both out_front.Both
  received receive st (success s) = record {
    request_state = st;
    outcome = success (out_front.join receive s);
  }
  received receive st (error e) = record { request_state = st; outcome = error e }
  received receive st (forward c w) = record {
    request_state = st;
    outcome = forward (in_front.join receive c) w;
  }

  pub finish :
      Option R
      → RequestOutcome H I S
      → Poll (ReceiveFuture T.Future R) (RequestOutcome H in_front.Both out_front.Both)
  finish none o = panicked
  finish (some receive) o = ready (received receive o.request_state o.outcome)

  pub poll_receive :
      ReceiveFuture T.Future R
      → Poll (ReceiveFuture T.Future R) (RequestOutcome H in_front.Both out_front.Both)
  poll_receive (receiving future receive) = elim (T.poll future) [
    | ready o ↦ finish receive o
    | waiting f ↦ waiting (receiving f receive)
    | panicked ↦ panicked
  ]

  unfoldable pub receive_filter : Filter H in_front.Both out_front.Both
  unfolding poll_receive finish received
  receive_filter = record {
    Future = ReceiveFuture T.Future R;
    execute = λ request st input.
        receiving (T.execute request st (in_front.part input).1) (some (in_front.part input).0);
    poll = poll_receive;
  }
