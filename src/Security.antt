-- ===== src/Security.antt =====
-- src/security/mod.rs: `X-Content-Type-Options: nosniff`; the child is about other origins.
pub mod Origin
pub mod Hsts
use myth.Prelude.{Option, some}
use myth.Text.{str}
use myth.Http.{Http, x_content_type_options}
use myth.Response.{Response, response_responder, with_header}
use myth.Outcome.{success, RequestOutcome}
use myth.Future.{poll_ready}
use myth.Tuple.{One, into_inner, from_inner}
use myth.Filter.{Filter}

module _ {H : Http} where
  -- `XContentTypeOptions`
  unfoldable pub nosniff : Filter H (One (Response H)) (One (Response H))
  unfolding poll_ready with_header
  nosniff = record {
    Future = Option (RequestOutcome H (One (Response H)) (One (Response H)));
    execute = λ request st input. some (record {
      request_state = st;
      outcome = success (
          from_inner (
            with_header response_responder (H.known x_content_type_options)
              (H.from_static (str "nosniff")) (into_inner input)));
    });
    poll = poll_ready;
  }
