-- ===== src/Cache.antt =====
-- src/cache/mod.rs: `if_unmodified_since`, which answers a request whose copy is recent enough.
pub mod Meaning
use mathlib.Core.Logic.{ite}
use myth.Prelude.{Bool, true, false, Option, none, some, ◌>>=◌, if◌then◌else◌}
use myth.Http.{Http, get, head, if_modified_since}
use myth.Request.{Request, header}
use myth.Response.{Response, response_responder, default, with_status}
use myth.Errors.{box, invalid_if_unmodified_since}
use myth.Outcome.{Outcome, success, error, forward, RequestOutcome}
use myth.Forward.{not_found}
use myth.Future.{poll_ready}
use myth.Tuple.{One, from_inner, into_inner}
use myth.Filter.{Filter}

module _ {H : Http} where
  -- `request.method == Method::GET || request.method == Method::HEAD`
  abbrev pub is_get_or_head : Request H → Bool
  is_get_or_head request =
      ite (H.Method-discrete request.method (H.standard get)) true
        (ite (H.Method-discrete request.method (H.standard head)) true false)

  -- `Response::default().with_status(StatusCode::NOT_MODIFIED)`
  unfoldable pub not_modified : Response H
  unfolding with_status
  not_modified = with_status response_responder 304 default

  -- `InvalidIfUnmodifiedSince`, boxed, or what the parsed date says
  abbrev pub dated :
      H.SystemTime
      → H.HeaderValue
      → Option H.SystemTime
      → Outcome H (One H.SystemTime) (One (Response H))
  dated modified_time value none = error (box invalid_if_unmodified_since value)
  dated modified_time value (some cached_time) =
      if H.later cached_time modified_time
      then success (from_inner not_modified)
      else forward (from_inner modified_time) not_found

  abbrev pub conditional :
      H.SystemTime → Option H.HeaderValue → Outcome H (One H.SystemTime) (One (Response H))
  conditional modified_time none = forward (from_inner modified_time) not_found
  conditional modified_time (some value) =
      dated modified_time value (H.to_str value >>= H.parse_http_date)

  -- The outcome that `IfUnmodifiedSince::execute` computes
  unfoldable pub cache_outcome :
      Request H → H.SystemTime → Outcome H (One H.SystemTime) (One (Response H))
  unfolding header not_modified
  cache_outcome request modified_time =
      if is_get_or_head request
      then conditional modified_time (header request (H.known if_modified_since))
      else forward (from_inner modified_time) not_found

  -- `IfUnmodifiedSince`
  unfoldable pub if_unmodified_since : Filter H (One H.SystemTime) (One (Response H))
  unfolding poll_ready cache_outcome
  if_unmodified_since = record {
    Future = Option (RequestOutcome H (One H.SystemTime) (One (Response H)));
    execute = λ request st input.
        some (record { request_state = st; outcome = cache_outcome request (into_inner input) });
    poll = poll_ready;
  }
