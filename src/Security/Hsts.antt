-- ===== src/Security/Hsts.antt =====
-- src/security/hsts.rs: the header `Strict-Transport-Security` on a response.
pub mod Meaning
use myth.Prelude.{ℕ, Option, none, some, ◌>>=◌, ◌++◌, List, [], ◌∷◌, ok}
use myth.Text.{Str, str}
use myth.Text.Numbers.{decimal}
use myth.Http.{Http, strict_transport_security}
use myth.Response.{Response, response_responder, with_header}
use myth.Future.{async_fn}
use myth.Tuple.{One, from_inner, into_inner}
use myth.Tuple.RoundTrip.{tuple_append}
use myth.Filter.{Filter}
use myth.Filter.Handle.{handle_filter}
use myth.Filter.Receive.{receive_filter}
use myth.Basic.{any}

pub data Directives : Type 0 where
  no_directives include_sub_domains preload : Directives

-- `max_age` is in whole seconds, which is all that the code looks at.
pub record Config : Type 0 where
  pub max_age : ℕ
  pub directives : Directives

unfoldable pub directives_text : ℕ → Directives → Str
unfolding decimal
directives_text max_age include_sub_domains =
    (str "max-age=" ++ decimal max_age) ++ str "; includeSubDomains"
directives_text max_age preload =
    (str "max-age=" ++ decimal max_age) ++ str "; includeSubDomains; preload"
directives_text max_age no_directives = str "max-age=" ++ decimal max_age

module _ {H : Http} where
  abbrev pub response_filter : H.HeaderValue → Filter H (One (Response H)) (One (Response H))
  response_filter value =
      handle_filter
        (receive_filter any (tuple_append (Response H ∷ []) []) (tuple_append (Response H ∷ []) []))
        (async_fn (λ args. some (
          ok (
            with_header response_responder (H.known strict_transport_security) value
              (into_inner args)))))

  -- `none` is the panic of a header value that is not valid.
  unfoldable pub hsts : Config → Option (Filter H (One (Response H)) (One (Response H)))
  unfolding directives_text any receive_filter handle_filter with_header
  hsts config = do
    value ← H.try_from (directives_text config.max_age config.directives)
    some (response_filter value)
