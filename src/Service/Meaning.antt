-- ===== src/Service/Meaning.antt =====
-- That a request is answered, if its body ends.
use myth.Prelude.{◌≡◌, ◌↔◌, refl, sym, Option, some, ◌>>=◌, []}
use myth.Http.{Http}
use myth.Http
use myth.Response.Defaults.{default_response-code}
use myth.Request.{Request, RequestState, new_state}
use myth.Request.Paths.{InPath}
use myth.Request.Body.{EndsStream}
use myth.Text.{len}
use myth.Response.{Response}
use myth.Errors.{BoxedFilterError}
use myth.Errors.Answer.{Custom, error_response}
use myth.Outcome.{Outcome, success, error, forward, RequestOutcome}
use myth.Forward.{not_found, method_not_allowed}
use myth.Forward.Answer.{forwarding_response, forwarding_response-Names}
use myth.Future.{Completes}
use myth.Future.Sequence.{continue-Completes}
use myth.Tuple.{One, into_inner}
use myth.Filter.{Filter, Runs}
use myth.Filter.Raises.{Fine}
use myth.Safety.Raises.{RaisesOnly, Built-Raises}
use myth.Safety.{Built}
use myth.Safety.Total.{IsAnswering, Built-Runs}
use myth.Service.{HyperRequest, from_hyper, outcome_response, handle_requests, poll_response}

module _ {H : Http} {R : Type 0} (own : Custom H) (into_response : R → Option (Response H))
    (F : Filter H (Unit {0}) (One R)) where
  -- The response to a request comes from the outcome of the filter.
  pub service-Completes :
      (request : Request H) (st : RequestState H) (o : Option (Response H))
      → Completes (poll_response own into_response F) (F.execute request st tt) o ↔ (
          (x : Option (RequestOutcome H (Unit {0}) (One R))) × Runs F request st tt x
          × (o ≡ (x >>= (λ y. outcome_response own into_response y.outcome))))
  unfolding poll_response
  service-Completes request st o =
      continue-Completes F.poll (λ x. outcome_response own into_response x.outcome)
        (F.execute request st tt) o

  -- The error is answered without a panic.
  abbrev pub IsPresentable : BoxedFilterError H → Type 0
  IsPresentable e = (response : Response H) × (error_response own e ≡ some response)

  answerable :
      (x : Outcome H (Unit {0}) (One R))
      → ((s : R) → (response : Response H) × (into_response s ≡ some response))
      → Fine IsPresentable x
      → (response : Response H) × (outcome_response own into_response x ≡ some response)
  unfolding outcome_response forwarding_response
  answerable (success s) responds h = responds (into_inner s)
  answerable (error e) responds h = h
  answerable (forward c not_found) responds h =
      let (r, e, same) = default_response-code H Http.not_found in (r, e)
  answerable (forward c (method_not_allowed self)) responds h =
      let (r, e, status, text) = forwarding_response-Names H self in (r, e)

  start-InPath :
      (request : HyperRequest H) (remote_addr : H.SocketAddr)
      → InPath (from_hyper request remote_addr).0 (from_hyper request remote_addr).1
  unfolding from_hyper new_state len
  start-InPath request remote_addr = record {
    before = [];
    after = H.path request.uri;
    whole = refl;
    at = refl;
  }

  -- A service answers a request whose body ends or fails after a finite number of polls: if its filter is
  -- built out of the basic, method, path and header filters, `body::all`, `if_unmodified_since` and
  -- `x_content_type_options` by the combinators, from handlers that do not panic and are done after a
  -- finite number of polls, and if the errors that this may end in on the request, and the values of its
  -- responder type, are made into responses without a panic, then the future for the request is done
  -- after a finite number of polls, without a panic, with a response. It is the response that the outcome
  -- of the filter, run on the request from the start of its path, gives.
  pub handle_requests_lem :
      (request : HyperRequest H) (remote_addr : H.SocketAddr) (b : Built (Unit {0}) (One R) F)
      → EndsStream (H.events request.body)
      → ((s : R) → (response : Response H) × (into_response s ≡ some response))
      → IsAnswering b
      → RaisesOnly IsPresentable (from_hyper request remote_addr).0 b
      → (response : Response H) × (x : RequestOutcome H (Unit {0}) (One R)) × Completes
          (poll_response own into_response F)
          (handle_requests own into_response F request remote_addr)
          (some response)
        × Runs F (from_hyper request remote_addr).0 (from_hyper request remote_addr).1 tt (some x)
        × (outcome_response own into_response x.outcome ≡ some response)
  unfolding handle_requests from_hyper new_state
  handle_requests_lem request remote_addr b ends responds answering raises =
      let (r, st) = from_hyper request remote_addr in
      let (x, c, p, last) =
        Built-Runs F r st tt b answering (start-InPath request remote_addr) ends in
      let (response, e) =
        answerable x.outcome responds (Built-Raises IsPresentable r b raises st tt (some x) c) in
      (response, x, (service-Completes r st (some response)).1 (some x, c, sym e), c, e)
