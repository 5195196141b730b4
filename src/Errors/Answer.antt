-- ===== src/Errors/Answer.antt =====
-- `into_response` of the errors: src/errors.rs, and the crate's own errors in src/path.rs, src/header.rs,
-- src/body.rs, src/cache/mod.rs, src/json.rs, src/form/urlencoded.rs and src/query.rs.
use myth.Prelude.{◌≡◌, ◌≤◌, ◌<◌, arith, Option, none, some, ◌>>=◌}
use myth.Http.{
  Http, NamedStatus, code, location, permanent_redirect, bad_request, payload_too_large,
  unsupported_media_type, internal_server_error,
}
use myth.Response.{Response, response_responder, default_response, with_header}
use myth.Response.Defaults.{default_response-code}
use myth.Errors.{
  Redirect, ContentError, MultipartError, no_content_type, wrong_content_type, reading,
  deserializing, TypeId, redirect, forward_param, header_missing, body_error, content_length_error,
  invalid_if_unmodified_since, json_error, urlencoded_error, multipart_error, query_error, custom,
  ErrorOf, BoxedFilterError, box,
}

module _ {H : Http} where
  -- `Redirect::into_response`
  unfoldable pub redirect_response : Redirect → Option (Response H)
  unfolding default_response with_header
  redirect_response self = do
    response ← default_response (code permanent_redirect)
    value ← H.try_from self.location
    some (with_header response_responder (H.known location) value response)

  -- `json::Error::into_response` and `form::urlencoded::Error::into_response`
  unfoldable pub content_response : {E : Type 0} → ContentError H E → Option (Response H)
  unfolding default_response
  content_response no_content_type = default_response (code unsupported_media_type)
  content_response (wrong_content_type value) = default_response (code unsupported_media_type)
  content_response (reading e) = default_response (code bad_request)
  content_response (deserializing e) = default_response (code bad_request)

  -- `form::multipart::Error::into_response`
  unfoldable pub multipart_response : MultipartError H → Option (Response H)
  unfolding default_response
  multipart_response no_content_type = default_response (code unsupported_media_type)
  multipart_response (wrong_content_type value) = default_response (code unsupported_media_type)
  multipart_response (reading e) = default_response (code bad_request)

-- What an application's error type makes of its values.
abbrev pub Custom : Http → Type 0
Custom H = (e : H.ErrorId) → H.ErrorValue e → Option (Response H)

-- The default body of `FilterError::into_response`
unfoldable pub default_error_response : (H : Http) → Option (Response H)
unfolding default_response
default_error_response H = default_response (code internal_server_error)

module _ {H : Http} (own : Custom H) where
  -- `FilterError::into_response` of the boxed error; `none` is a panic: two of the types are always
  -- recovered from, and have no response.
  unfoldable pub error_response : BoxedFilterError H → Option (Response H)
  unfolding redirect_response content_response multipart_response default_response
  error_response (redirect, e) = redirect_response e
  error_response (forward_param, e) = none
  error_response (header_missing, e) = none
  error_response (body_error, e) = default_response (code internal_server_error)
  error_response (content_length_error, e) = default_response (code payload_too_large)
  error_response (invalid_if_unmodified_since, e) = default_response (code bad_request)
  error_response (json_error, e) = content_response e
  error_response (urlencoded_error, e) = content_response e
  error_response (multipart_error, e) = multipart_response e
  error_response (query_error, e) = default_response (code bad_request)
  error_response (custom t, e) = own t e

-- The error types of the crate but a redirect, which is answered with 308, and the two that are always
-- recovered from.
abbrev pub IsAnswered : {H : Http} → TypeId H → Type 0
IsAnswered redirect = ⊥
IsAnswered forward_param = ⊥
IsAnswered header_missing = ⊥
IsAnswered (custom t) = ⊥
IsAnswered _ = Unit

-- A response that tells of an error, of the client or of the server.
abbrev pub TellsError : {H : Http} → Option (Response H) → Type 0
TellsError {H} o = (r : Response H) × (o ≡ some r) × (400 ≤ r.status) × (r.status < 600)

module _ {H : Http} where
  named-TellsError :
      (s : NamedStatus)
      → 400 ≤ code s
      → code s < 600
      → TellsError (default_response {H = H} (code s))
  named-TellsError s low high =
      let (r, e, same) = default_response-code H s in
      (r, e, omega (arith, same, low), omega (arith, same, high))

  content_response-TellsError :
      {E : Type 0} (e : ContentError H E) → TellsError (content_response {H = H} e)
  unfolding content_response
  content_response-TellsError no_content_type =
      named-TellsError unsupported_media_type (omega arith) (omega arith)
  content_response-TellsError (wrong_content_type v) =
      named-TellsError unsupported_media_type (omega arith) (omega arith)
  content_response-TellsError (reading e) = named-TellsError bad_request (omega arith) (omega arith)
  content_response-TellsError (deserializing e) =
      named-TellsError bad_request (omega arith) (omega arith)

  multipart_response-TellsError : (e : MultipartError H) → TellsError (multipart_response {H = H} e)
  unfolding multipart_response
  multipart_response-TellsError no_content_type =
      named-TellsError unsupported_media_type (omega arith) (omega arith)
  multipart_response-TellsError (wrong_content_type v) =
      named-TellsError unsupported_media_type (omega arith) (omega arith)
  multipart_response-TellsError (reading e) =
      named-TellsError bad_request (omega arith) (omega arith)

  -- Every error of one of the crate's own types, but for a redirect and for the two types that are always
  -- recovered from and have no response, is answered without a panic, with a status of 400 or more and
  -- less than 600.
  pub error_response-TellsError :
      (own : Custom H) (t : TypeId H) (e : ErrorOf H t)
      → IsAnswered t
      → TellsError (error_response own (box t e))
  unfolding error_response
  error_response-TellsError own redirect e h = absurd h
  error_response-TellsError own forward_param e h = absurd h
  error_response-TellsError own header_missing e h = absurd h
  error_response-TellsError own body_error e h =
      named-TellsError internal_server_error (omega arith) (omega arith)
  error_response-TellsError own content_length_error e h =
      named-TellsError payload_too_large (omega arith) (omega arith)
  error_response-TellsError own invalid_if_unmodified_since e h =
      named-TellsError bad_request (omega arith) (omega arith)
  error_response-TellsError own json_error e h = content_response-TellsError e
  error_response-TellsError own urlencoded_error e h = content_response-TellsError e
  error_response-TellsError own multipart_error e h = multipart_response-TellsError e
  error_response-TellsError own query_error e h =
      named-TellsError bad_request (omega arith) (omega arith)
  error_response-TellsError own (custom t) e h = absurd h
