-- ===== src/Header/Meaning.antt =====
-- What the filters of src/header.rs come to.
use myth.Prelude.{[], ◌∷◌, Option, none, some, ◌>>=◌, ok}
use myth.Http.{Http}
use myth.Http
use myth.Request.{Request, RequestState, header}
use myth.Errors.{header_missing}
use myth.Outcome.{Outcome, success, forward, from_result, map_request_outcome}
use myth.Forward.{not_found}
use myth.Future.{async_fn}
use myth.Future.Sequence.{Completes-poll_ready}
use myth.Tuple.{Tuple, One, from_inner}
use myth.Filter.{Runs}
use myth.Filter.Handle.{handle_filter}
use myth.Filter.Run.{
  came_to, handle_success, recover_forward_success, recover_forward_error, untuple_run,
}
use myth.Header.{all, value_optional, require, value, parse_content_type, content_type}

module _ {H : Http} where
  pub all-Runs :
      (r : Request H) (st : RequestState H)
      → Runs all r st tt (came_to st (success (from_inner r.headers)))
  unfolding all
  all-Runs r st = Completes-poll_ready _

  pub value_optional-Runs :
      (r : Request H) (st : RequestState H) (name : H.HeaderName)
      → Runs (value_optional name) r st tt (came_to st (success (from_inner (header r name))))
  unfolding value_optional
  value_optional-Runs r st name = Completes-poll_ready _

  -- The first value of a header as the outcome of `value`.
  abbrev pub first_value : Option H.HeaderValue → Outcome H (Unit {0}) (One H.HeaderValue)
  first_value none = forward tt not_found
  first_value (some v) = success (from_inner v)

  value_found :
      (r : Request H) (st : RequestState H) (name : H.HeaderName) (found : Option H.HeaderValue)
      → Runs (value_optional name) r st tt (came_to st (success (from_inner found)))
      → Runs (value name) r st tt (came_to st (first_value found))
  unfolding value from_result
  value_found r st name none c =
      recover_forward_error r st st
        (handle_filter (value_optional name) (async_fn (λ option. some (require option))))
        header_missing (λ e. some (ok not_found)) tt
        (handle_success r st st (value_optional name) (λ option. some (require option)) tt _ c)
  value_found r st name (some v) c =
      recover_forward_success r st st
        (handle_filter (value_optional name) (async_fn (λ option. some (require option))))
        header_missing (λ e. some (ok not_found)) (from_inner v)
        (handle_success r st st (value_optional name) (λ option. some (require option)) tt _ c)

  pub value-Runs :
      (r : Request H) (st : RequestState H) (name : H.HeaderName)
      → Runs (value name) r st tt (came_to st (first_value (header r name)))
  value-Runs r st name = value_found r st name (header r name) (value_optional-Runs r st name)

  -- The content type, where it is text of that form, and the header.
  abbrev pub content_type_of : Request H → Tuple (Option H.Mime ∷ Option H.HeaderValue ∷ [])
  content_type_of r =
      let found = header r (H.known Http.content_type) in
      (found >>= H.to_str >>= H.parse_mime, (found, tt))

  pub content_type-Runs :
      (r : Request H) (st : RequestState H)
      → Runs content_type r st tt (came_to st (success (content_type_of r)))
  unfolding content_type from_result map_request_outcome
  content_type-Runs r st =
      untuple_run
        (handle_filter (value_optional (H.known Http.content_type))
          (async_fn (λ option. some (parse_content_type option))))
        r st tt _
        (handle_success r st st (value_optional (H.known Http.content_type))
          (λ option. some (parse_content_type option)) tt _
          (value_optional-Runs r st (H.known Http.content_type)))
