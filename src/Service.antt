-- ===== src/Service.antt =====
-- src/service.rs: what is done with a request that a connection gives, and `from_hyper` of src/request.rs.
pub mod Meaning
use myth.Prelude.{Option, none, some}
use myth.Http.{Http}
use myth.Request.{Request, RequestState, new_state}
use myth.Response.{Response}
use myth.Errors.Answer.{Custom, error_response}
use myth.Outcome.{Outcome, success, error, forward}
use myth.Forward.Answer.{forwarding_response}
use myth.Future.{Poll, continue}
use myth.Tuple.{One, into_inner}
use myth.Filter.{Filter}

-- `HyperRequest`: the parts that the program takes, the upgrade from the extensions, and the body.
pub record HyperRequest (H : Http) : Type 0 where
  pub method : H.Method
  pub uri : H.Uri
  pub version : H.Version
  pub headers : H.HeaderMap
  pub on_upgrade : Option H.OnUpgrade
  pub body : H.Body

module _ {H : Http} where
  unfoldable pub from_hyper : HyperRequest H → H.SocketAddr → Request H × RequestState H
  unfolding new_state
  from_hyper request remote_addr =
      let state = new_state request.body request.on_upgrade in
      (
        record {
          method = request.method;
          uri = request.uri;
          version = request.version;
          headers = request.headers;
          remote_addr = remote_addr;
        },
        state,
      )

-- `into_response` is that of the responder's type, which may be the application's; `none` is its panic.
module _ {H : Http} {R : Type 0} (own : Custom H) (into_response : R → Option (Response H)) where
  -- The `match` on the outcome; `none` is a panic of `into_response`.
  unfoldable pub outcome_response : Outcome H (Unit {0}) (One R) → Option (Response H)
  unfolding error_response forwarding_response
  outcome_response (success s) = into_response (into_inner s)
  outcome_response (error e) = error_response own e
  outcome_response (forward c w) = forwarding_response w

  module _ (F : Filter H (Unit {0}) (One R)) where
    -- The asynchronous block of `handle_requests`
    unfoldable pub handle_requests : HyperRequest H → H.SocketAddr → F.Future
    unfolding from_hyper
    handle_requests request remote_addr =
        let (request, request_state) = from_hyper request remote_addr in
        F.execute request request_state tt

    unfoldable pub poll_response : F.Future → Poll F.Future (Response H)
    unfolding continue outcome_response
    poll_response future = continue (λ o. outcome_response o.outcome) (F.poll future)
