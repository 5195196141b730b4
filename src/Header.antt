-- ===== src/Header.antt =====
-- src/header.rs: the filters that look at the headers of a request. A header name is one that was made
-- already; where it is given as a text, an invalid one is a panic before there is a filter.
pub mod Meaning
use myth.Prelude.{List, [], ◌∷◌, Option, none, some, Result, ok, err, ◌>>=◌}
use myth.Http.{Http}
use myth.Http
use myth.Request.{header}
use myth.Errors.{BoxedFilterError, box, header_missing, recover_type}
use myth.Outcome.{success, RequestOutcome}
use myth.Forward.{not_found}
use myth.Future.{poll_ready, async_fn}
use myth.Tuple.{Tuple, One, into_inner, from_inner}
use myth.Filter.{Filter}
use myth.Filter.Handle.{handle_filter}
use myth.Filter.RecoverForward.{recover_forward_filter}
use myth.Filter.Untuple.{untuple_filter}

module _ {H : Http} where
  -- `AllHeaders`
  unfoldable pub all : Filter H (Unit {0}) (One H.HeaderMap)
  unfolding poll_ready
  all = record {
    Future = Option (RequestOutcome H (Unit {0}) (One H.HeaderMap));
    execute = λ request st input.
        some (record { request_state = st; outcome = success (from_inner request.headers) });
    poll = poll_ready;
  }

  -- `HeaderValueFilter`
  unfoldable pub value_optional : H.HeaderName → Filter H (Unit {0}) (One (Option H.HeaderValue))
  unfolding poll_ready header
  value_optional name = record {
    Future = Option (RequestOutcome H (Unit {0}) (One (Option H.HeaderValue)));
    execute = λ request st input.
        some (record { request_state = st; outcome = success (from_inner (header request name)) });
    poll = poll_ready;
  }

  -- The handler of `value`
  abbrev pub require : One (Option H.HeaderValue) → Result H.HeaderValue (BoxedFilterError H)
  require option = elim (into_inner option) [
    | none ↦ err (box header_missing tt)
    | some value ↦ ok value
  ]

  unfoldable pub value : H.HeaderName → Filter H (Unit {0}) (One H.HeaderValue)
  unfolding value_optional handle_filter recover_forward_filter
  value name =
      recover_forward_filter
        (handle_filter (value_optional name) (async_fn (λ option. some (require option))))
        (async_fn (λ e. some (ok not_found))) (recover_type header_missing)

  -- The handler of `content_type`
  abbrev pub parse_content_type :
      One (Option H.HeaderValue)
      → Result (Tuple (Option H.Mime ∷ Option H.HeaderValue ∷ [])) (BoxedFilterError H)
  parse_content_type option =
      let value = into_inner option in
      let mime = value >>= H.to_str >>= H.parse_mime in ok (mime, (value, tt))

  unfoldable pub content_type :
      Filter H (Unit {0}) (Tuple (Option H.Mime ∷ Option H.HeaderValue ∷ []))
  unfolding value_optional handle_filter untuple_filter
  content_type = untuple_filter (
      handle_filter (value_optional (H.known Http.content_type))
        (async_fn (λ option. some (parse_content_type option))))
