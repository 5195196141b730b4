-- ===== src/Response.antt =====
-- src/response.rs: responses, and the values that can be made into one.
pub mod Defaults
use myth.Prelude.{ℕ, Option, some, ◌>>=◌}
use myth.Text.{Str, str}
use myth.Http.{Http, content_type}

-- `hyper::Response<Body>`
pub record Response (H : Http) : Type 0 where
  pub status : ℕ
  pub headers : H.HeaderMap
  pub body : H.Body

pub record Responder (H : Http) (R : Type 0) : Type 0 where
  pub into_response : R → Response H

module _ {H : Http} where
  -- `Response::new`
  unfoldable pub new_response : H.Body → Response H
  new_response body = record { status = 200; headers = H.new_map; body = body }

  -- `Response::default`
  abbrev pub default : Response H
  default = record { status = 200; headers = H.new_map; body = H.empty_body }

  abbrev pub response_responder : Responder H (Response H)
  response_responder = record { into_response = λ response. response }

  -- `responder_impls!(TEXT_PLAIN => …)`
  unfoldable pub text_response : Str → Response H
  unfolding new_response
  text_response text = record (new_response (H.body_from text)) {
    headers =
        H.insert (H.known content_type) (H.from_static (str "text/plain; charset=utf-8"))
          (new_response (H.body_from text)).headers;
  }

  abbrev pub text_responder : Responder H Str
  text_responder = record { into_response = text_response }

  module _ {R : Type 0} (responder : Responder H R) where
    unfoldable pub with_status : ℕ → R → Response H
    with_status status r = record (responder.into_response r) { status = status }

    unfoldable pub with_header : H.HeaderName → H.HeaderValue → R → Response H
    with_header name value r =
        let response = responder.into_response r in
        record response { headers = H.insert name value response.headers }

    unfoldable pub add_header : H.HeaderName → H.HeaderValue → R → Response H
    add_header name value r =
        let response = responder.into_response r in
        record response { headers = H.append name value response.headers }

    -- `html`
    unfoldable pub html : R → Response H
    unfolding with_header
    html = with_header (H.known content_type) (H.from_static (str "text/html; charset=utf-8"))

    -- `Responder for (StatusCode, R)`
    abbrev pub status_responder : Responder H (ℕ × R)
    unfolding with_status
    status_responder = record { into_response = λ (status, r). with_status status r }

  -- `none` is the panic for a status without a canonical reason.
  unfoldable pub default_response : ℕ → Option (Response H)
  unfolding with_status text_response
  default_response status = do
    reason ← H.canonical_reason status
    some (with_status text_responder status reason)
