-- ===== src/Security/Origin/Cors.antt =====
-- src/security/origin.rs: a filter behind origin checking.
pub mod Permission
pub mod Permitted
pub mod Meaning
use mathlib.Core.Option
use mathlib.Core.Logic.{ite}
use myth.Prelude.{Bool, true, false, Option, none, some, if◌then◌else◌, ◌>>=◌}
use myth.Text.{Str, str}
use myth.Http.{
  Http, options, vary, KnownHeader, access_control_allow_origin, access_control_expose_headers,
  access_control_allow_credentials,
}
use myth.Request.{Request, RequestState, header}
use myth.Response.{Response, Responder, response_responder, with_header, default_response}
use myth.Outcome.{Outcome, success, error, forward, RequestOutcome}
use myth.Future.{Poll, ready, waiting, panicked, poll_ready}
use myth.Tuple.{One, from_inner, into_inner}
use myth.Filter.{Filter}
use myth.Security.Origin.{CorsData, contains}
use myth.Security.Origin.Preflight.{
  Origin, allowed, disallowed, any_allowed, check_origin, preflight,
}

-- The fields of `ApplyHeaders` besides the future.
pub record Headers (H : Http) : Type 0 where
  pub origin : H.HeaderValue
  pub expose_headers : Option H.HeaderValue
  pub credentials : Bool
  pub vary : Bool

module _ {H : Http} where
  -- `vary_origin(response.headers_mut())`
  unfoldable pub vary_origin : Response H → Response H
  vary_origin response = record response {
    headers = H.append (H.known vary) (H.from_name (H.known KnownHeader.origin)) response.headers;
  }

  -- The response of `forbidden!`.
  unfoldable pub forbidden : Option (Response H)
  unfolding vary_origin
  forbidden = Option.map vary_origin (default_response 403)

  -- `if let Some(value) = &self.expose_headers { … }`
  unfoldable pub expose : Option H.HeaderValue → Response H → Response H
  expose none response = response
  expose (some value) response =
      with_header response_responder (H.known access_control_expose_headers) value response

  -- `if self.credentials { … }`
  unfoldable pub credit : Bool → Response H → Response H
  credit false response = response
  credit true response =
      with_header response_responder (H.known access_control_allow_credentials)
        (H.from_static (str "true")) response

  -- `if self.vary { … }`
  unfoldable pub vary_if : Bool → Response H → Response H
  vary_if false response = response
  vary_if true response = vary_origin response

  -- The headers that `ApplyHeaders::poll` sets on a success.
  unfoldable pub apply_headers : {R : Type 0} → Responder H R → Headers H → R → Response H
  apply_headers responder h r = vary_if h.vary (
      credit h.credentials (
        expose h.expose_headers
          (with_header responder (H.known access_control_allow_origin) h.origin r)))

-- `Either<Either<Ready<…>, ApplyHeaders<…>>, VaryOrigin<…>>`
pub data CorsFuture (H : Http) (FutureT I : Type 0) : Type 0 where
  answered : Option (RequestOutcome H I (One (Response H))) → CorsFuture H FutureT I
  applying : FutureT → Headers H → CorsFuture H FutureT I
  varying : FutureT → CorsFuture H FutureT I

module _ {H : Http} {I R : Type 0} where
  -- The outcome of the inner filter, with its responder turned into a response.
  pub respond : (R → Response H) → Outcome H I (One R) → Outcome H I (One (Response H))
  respond f (success r) = success (from_inner (f (into_inner r)))
  respond f (error e) = error e
  respond f (forward c w) = forward c w

  abbrev pub respond_outcome :
      (R → Response H) → RequestOutcome H I (One R) → RequestOutcome H I (One (Response H))
  respond_outcome f o = record { request_state = o.request_state; outcome = respond f o.outcome }

module _ {H : Http} {I R : Type 0} (responder : Responder H R) where
  module _ (cors : CorsData H) (T : Filter H I (One R)) where
    -- `ready(RequestOutcome { request_state, outcome: Outcome::Success((response,)) })`
    pub answer : RequestState H → Option (Response H) → CorsFuture H T.Future I
    answer st response =
        answered (
          Option.map (λ x. record { request_state = st; outcome = success (from_inner x) })
            response)

    -- `if self.methods.contains(&request.method)`
    pub proceed : Request H → RequestState H → I → H.HeaderValue → Bool → CorsFuture H T.Future I
    proceed request st input value varies =
        if contains H.Method-discrete request.method cors.methods
        then applying (T.execute request st input) (record {
          origin = value;
          expose_headers = cors.expose_headers;
          credentials = cors.credentials;
          vary = varies;
        })
        else answer st forbidden

    -- A request that is no preflight request.
    pub execute_checked : Request H → RequestState H → I → H.HeaderValue → CorsFuture H T.Future I
    execute_checked request st input value = elim (check_origin cors value) [
      | allowed ↦ proceed request st input value true
      | disallowed ↦ answer st forbidden
      | any_allowed ↦ proceed request st input (H.from_static (str "*")) false
    ]

    pub execute_cors : Request H → RequestState H → I → CorsFuture H T.Future I
    execute_cors request st input = elim (header request (H.known KnownHeader.origin)) [
      | none ↦ varying (T.execute request st input)
      | some value ↦
          ite (H.Method-discrete request.method (H.standard options))
            (answer st (some (preflight cors request value)))
            (execute_checked request st input value)
    ]

    pub poll_cors :
        CorsFuture H T.Future I
        → Poll (CorsFuture H T.Future I) (RequestOutcome H I (One (Response H)))
    poll_cors (answered o) = elim (poll_ready o) [
      | ready x ↦ ready x
      | waiting s ↦ waiting (answered s)
      | panicked ↦ panicked
    ]
    poll_cors (applying future h) = elim (T.poll future) [
      | ready o ↦ ready (respond_outcome (apply_headers responder h) o)
      | waiting f ↦ waiting (applying f h)
      | panicked ↦ panicked
    ]
    poll_cors (varying future) = elim (T.poll future) [
      | ready o ↦ ready (respond_outcome (λ r. vary_origin (responder.into_response r)) o)
      | waiting f ↦ waiting (varying f)
      | panicked ↦ panicked
    ]

    unfoldable pub cors_filter : Filter H I (One (Response H))
    unfolding poll_cors execute_cors execute_checked proceed answer
    cors_filter = record {
      Future = CorsFuture H T.Future I;
      execute = execute_cors;
      poll = poll_cors;
    }
