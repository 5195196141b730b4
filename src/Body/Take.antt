-- ===== src/Body/Take.antt =====
-- src/body.rs: `all`, the filter that takes the body of the request.
pub mod Meaning
pub mod Halts
use myth.Prelude.{ℕ, Option, none, some, List, Result, map_ok, map_err}
use myth.Http.{Http}
use myth.Request.{Request, RequestState, BodyPoll, waiting, answer, BodyError, poll_body}
use myth.Errors.{box, body_error}
use myth.Outcome.{RequestOutcome, from_result}
use myth.Future.{Poll, ready, panicked}
use myth.Future
use myth.Tuple.{One, from_inner}
use myth.Filter.{Filter}
use myth.Body.Buffer.{BytesBuf}

module _ {H : Http} where
  -- What `TakeBodyFuture::poll` does with what `poll_body` left and answered.
  pub take_answer :
      RequestState H
      → BodyPoll H
      → Poll (Option (RequestState H)) (RequestOutcome H (Unit {0}) (One BytesBuf))
  take_answer st waiting = Future.waiting (some st)
  take_answer st (answer result) = ready (record {
    request_state = st;
    outcome = from_result (
        map_err (box body_error)
          (map_ok (λ (bytes, len). from_inner (record { bytes = bytes; len = len })) result));
  })

  -- `TakeBodyFuture::poll`; `none` is the request state taken out already.
  pub poll_take :
      Option (RequestState H)
      → Poll (Option (RequestState H)) (RequestOutcome H (Unit {0}) (One BytesBuf))
  unfolding poll_body take_answer from_result
  poll_take none = panicked
  poll_take (some st) = let (st, result) = poll_body st in take_answer st result

  -- `body::all`
  unfoldable pub all : Filter H (Unit {0}) (One BytesBuf)
  unfolding poll_take
  all = record {
    Future = Option (RequestState H);
    execute = λ request st input. some st;
    poll = poll_take;
  }
