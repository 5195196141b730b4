-- ===== src/TestRequest.antt =====
-- src/test.rs: requests that are made to test a filter, and what is checked of its outcome. A function of
-- the source that awaits the filter is one of its outcome, awaited by `test_poll`; `none` is a panic, by
-- which a test fails.
pub mod Agree
use mathlib.Core.Option
use myth.Prelude.{ℕ, Option, none, some, ◌>>=◌, List, Result, ok, err}
use myth.Text.{Str, str}
use myth.Http.{Http, StandardMethod, get, content_type}
use myth.Request.{Request, RequestState, new_state}
use myth.Response.{Response}
use myth.Errors.{Recoverable}
use myth.Outcome.{Outcome, success, error, forward, RequestOutcome}
use myth.Forward.{not_found, method_not_allowed}
use myth.Future.{Poll, continue}
use myth.Tuple.{One, into_inner}
use myth.Filter.{Filter}

-- The values of a new request: `Uri::from_static("/")`, `Version::HTTP_11` and the address of zeros.
pub record Initial (H : Http) : Type 0 where
  pub root_uri : H.Uri
  pub http_11 : H.Version
  pub unspecified_addr : H.SocketAddr

pub record RequestBuilder (H : Http) (Input : Type 0) : Type 0 where
  pub method : H.Method
  pub uri : H.Uri
  pub version : H.Version
  pub headers : H.HeaderMap
  pub remote_addr : H.SocketAddr
  pub body : H.Body
  pub input : Input

module _ {H : Http} where
  -- `RequestBuilder::new`
  unfoldable pub new_builder : Initial H → RequestBuilder H (Unit {0})
  new_builder initial = record {
    method = H.standard get;
    uri = initial.root_uri;
    version = initial.http_11;
    headers = H.new_map;
    remote_addr = initial.unspecified_addr;
    body = H.empty_body;
    input = tt;
  }

  unfoldable pub with_input :
      {Input : Type 0} → Input → RequestBuilder H (Unit {0}) → RequestBuilder H Input
  with_input input self = record {
    method = self.method;
    uri = self.uri;
    version = self.version;
    headers = self.headers;
    remote_addr = self.remote_addr;
    body = self.body;
    input = input;
  }

  -- `get`, `post` and the others, of the macro `define_method!`
  unfoldable pub define_method : Initial H → StandardMethod → RequestBuilder H (Unit {0})
  unfolding new_builder
  define_method initial m = record (new_builder initial) { method = H.standard m }

  module _ {Input : Type 0} where
    -- The argument is what `try_into` gives.
    unfoldable pub with_method :
        Option H.Method → RequestBuilder H Input → Option (RequestBuilder H Input)
    with_method method self = do method ← method; some (record self { method = method })

    unfoldable pub with_uri :
        Option H.Uri → RequestBuilder H Input → Option (RequestBuilder H Input)
    with_uri uri self = do uri ← uri; some (record self { uri = uri })

    unfoldable pub with_version : H.Version → RequestBuilder H Input → RequestBuilder H Input
    with_version version self = record self { version = version }

    unfoldable pub with_header :
        Option H.HeaderName
        → Option H.HeaderValue
        → RequestBuilder H Input
        → Option (RequestBuilder H Input)
    with_header name value self = do
      name ← name
      value ← value
      some (record self { headers = H.append name value self.headers })

    unfoldable pub with_remote_addr : H.SocketAddr → RequestBuilder H Input → RequestBuilder H Input
    with_remote_addr addr self = record self { remote_addr = addr }

    unfoldable pub with_body : H.Body → RequestBuilder H Input → RequestBuilder H Input
    with_body body self = record self { body = body }

    -- `json`, on what `serde_json::to_string` gives
    unfoldable pub with_json : Option Str → RequestBuilder H Input → Option (RequestBuilder H Input)
    unfolding with_body with_header
    with_json string self = do
      string ← string
      with_header (some (H.known content_type)) (H.try_from (str "application/json"))
          (with_body (H.body_from string) self)

    unfoldable pub into_args : RequestBuilder H Input → Request H × RequestState H × Input
    unfolding new_state
    into_args self = (
      record {
        method = self.method;
        uri = self.uri;
        version = self.version;
        headers = self.headers;
        remote_addr = self.remote_addr;
      },
      new_state self.body none,
      self.input,
    )

  module _ {C S : Type 0} where
    unfoldable pub match_outcome : {R : Type 0} → (S → Option R) → Outcome H C S → Option R
    match_outcome on_success (success s) = on_success s
    match_outcome on_success (error e) = none
    match_outcome on_success (forward c w) = none

    -- `success`, with the function that checks the success, and `succeeds`
    unfoldable pub checks_success : (S → Option (Unit {0})) → Outcome H C S → Option (Unit {0})
    unfolding match_outcome
    checks_success func outcome = match_outcome func outcome

    -- `error`
    unfoldable pub checks_error : {E : Type 0} → Recoverable H E → Outcome H C S → Option E
    checks_error as_error (success s) = none
    checks_error as_error (error e) = elim (as_error.recover e) [ ok v ↦ some v | err other ↦ none ]
    checks_error as_error (forward c w) = none

    -- `not_found`
    unfoldable pub checks_not_found : Outcome H C S → Option (Unit {0})
    checks_not_found (success s) = none
    checks_not_found (error e) = none
    checks_not_found (forward c not_found) = some tt
    checks_not_found (forward c (method_not_allowed attempted)) = none

  -- `response`, with `hyper::body::to_bytes`: the status, the headers and the bytes of the body.
  unfoldable pub checks_response :
      {C R : Type 0}
      → (H.Body → Option (List ℕ))
      → (R → Option (Response H))
      → Outcome H C (One R)
      → Option (ℕ × H.HeaderMap × List ℕ)
  unfolding match_outcome
  checks_response to_bytes into_response outcome = do
    response ← match_outcome (λ s. into_response (into_inner s)) outcome
    bytes ← to_bytes response.body
    some (response.status, response.headers, bytes)

  module _ {I S A : Type 0} (F : Filter H I S) (check : Outcome H I S → Option A) where
    -- The future of a test, started and polled
    unfoldable pub test_start : RequestBuilder H I → F.Future
    unfolding into_args
    test_start self =
        let (request, request_state, input) = into_args self in
        F.execute request request_state input

    unfoldable pub test_poll : F.Future → Poll F.Future A
    unfolding continue
    test_poll future = continue (λ o. check o.outcome) (F.poll future)
