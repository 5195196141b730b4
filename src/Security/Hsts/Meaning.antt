-- ===== src/Security/Hsts/Meaning.antt =====
-- What `hsts` does to a response.
use mathlib.Core.Logic.{if_pos, if_neg}
use mathlib.Core.List.{head?, append-nil}
use myth.Prelude.{
  ℕ, ◌<◌, ◌^◌, ◌≡◌, ◌≢◌, refl, sym, ap, ◌∙◌, true, some, ◌>>=◌, [], ◌∷◌, ◌++◌, all, all-append,
  ◌&&◌,
}
use myth.Text.{Str, str, visible}
use myth.Text.Numbers.{decimal, decimal-visible, parse_usize, parse_usize-decimal}
use myth.Http.{Http, strict_transport_security, get_header}
use myth.Request.{Request, RequestState}
use myth.Response.{Response, response_responder, with_header}
use myth.Outcome.{success, from_result}
use myth.Tuple.{One, from_inner, append, append_one}
use myth.Tuple.RoundTrip.{tuple_append}
use myth.Filter.{Filter, Runs}
use myth.Filter.Receive.{receive_filter}
use myth.Filter.Receive.Meaning.{receive-Runs}
use myth.Filter.Run.{came_to, handle_success}
use myth.Basic.{any}
use myth.Basic.Meaning.{any-Runs}
use myth.Security.Hsts.{
  Directives, no_directives, include_sub_domains, preload, Config, directives_text, response_filter,
  hsts,
}

max_age-visible : (max_age : ℕ) → all visible (str "max-age=" ++ decimal max_age) ≡ true
max_age-visible max_age =
    all-append visible (str "max-age=") (decimal max_age)
    ∙ ap (λ b. true && b) (decimal-visible max_age)

directives_text-visible :
    (max_age : ℕ) (d : Directives) → all visible (directives_text max_age d) ≡ true
unfolding directives_text
directives_text-visible max_age no_directives = max_age-visible max_age
directives_text-visible max_age include_sub_domains =
    all-append visible (str "max-age=" ++ decimal max_age) (str "; includeSubDomains")
    ∙ ap (λ b. b && true) (max_age-visible max_age)
directives_text-visible max_age preload =
    all-append visible (str "max-age=" ++ decimal max_age) (str "; includeSubDomains; preload")
    ∙ ap (λ b. b && true) (max_age-visible max_age)

-- What follows the number in the header.
abbrev pub suffix : Directives → Str
suffix no_directives = []
suffix include_sub_domains = str "; includeSubDomains"
suffix preload = str "; includeSubDomains; preload"

-- The text reads as the configuration: the number that it names is the number of seconds.
abbrev pub Reads : Config → Str → Type 0
Reads config text =
    (number : Str) × (text ≡ (str "max-age=" ++ number) ++ suffix config.directives)
    × (parse_usize number ≡ some config.max_age)

directives_text-suffix :
    (max_age : ℕ) (d : Directives)
    → directives_text max_age d ≡ (str "max-age=" ++ decimal max_age) ++ suffix d
unfolding directives_text
directives_text-suffix max_age no_directives = sym (append-nil (str "max-age=" ++ decimal max_age))
directives_text-suffix max_age include_sub_domains = refl
directives_text-suffix max_age preload = refl

directives_text-Reads :
    (config : Config)
    → config.max_age < 2 ^ 64
    → Reads config (directives_text config.max_age config.directives)
directives_text-Reads config h = (
  decimal config.max_age,
  directives_text-suffix config.max_age config.directives,
  parse_usize-decimal config.max_age h,
)

module _ {H : Http} where
  -- The response is the other one with the header set to the text.
  abbrev pub IsSecured : Response H → Response H → Str → Type 0
  IsSecured before response text =
      (response.status ≡ before.status)
      × (response.body ≡ before.body)
      × ((get_header H (H.known strict_transport_security) response.headers >>= H.to_str)
          ≡ some text)
      × ((n : H.HeaderName)
          → n ≢ H.known strict_transport_security
          → H.get_all n response.headers ≡ H.get_all n before.headers)

  response_filter-Runs :
      (value : H.HeaderValue) (r : Request H) (st : RequestState H) (response : Response H)
      → Runs (response_filter value) r st (from_inner response) (
          came_to st (
            success (
              from_inner (
                with_header response_responder
                  (H.known strict_transport_security)
                  value
                  response))))
  unfolding from_result append append_one
  response_filter-Runs value r st response =
      let ends = tuple_append (Response H ∷ []) [] in
      handle_success r st st (receive_filter any ends ends) _ (from_inner response)
        (from_inner response)
        ((receive-Runs any ends ends r st (from_inner response) tt _).1
          (came_to st (success tt), any-Runs r st, refl))

  with_header-IsSecured :
      (value : H.HeaderValue) (response : Response H) (text : Str)
      → H.to_str value ≡ some text
      → IsSecured response
          (with_header response_responder (H.known strict_transport_security) value response)
          text
  unfolding with_header
  with_header-IsSecured value response text e =
      let name = H.known strict_transport_security in
      (
        refl,
        refl,
        ap (λ l. head? l >>= H.to_str)
              (H.get_all-insert name name value response.headers
                ∙ if_pos (H.HeaderName-discrete name name) refl _ _)
            ∙ e,
        λ n d.
            H.get_all-insert n name value response.headers
            ∙ if_neg (H.HeaderName-discrete n name) d _ _,
      )

  -- For every configuration, with a number of seconds of 64 bits, the filter is made without a panic. It
  -- succeeds on every response with the same response, but that the header `Strict-Transport-Security`
  -- is set to a text of which the number reads as that of the configuration, with the directives after
  -- it; all other headers, the status and the body are kept.
  pub hsts-IsSecured :
      (config : Config) (r : Request H) (st : RequestState H) (response : Response H)
      → config.max_age < 2 ^ 64
      → (F : Filter H (One (Response H)) (One (Response H))) × (response' : Response H)
        × (text : Str) × (hsts config ≡ some F)
        × Runs F r st (from_inner response) (came_to st (success (from_inner response')))
        × IsSecured response response' text
        × Reads config text
  unfolding hsts
  hsts-IsSecured config r st response h =
      let text = directives_text config.max_age config.directives in
      let (value, e, t) =
        H.try_from-visible text (directives_text-visible config.max_age config.directives) in
      (
        response_filter value,
        with_header response_responder (H.known strict_transport_security) value response,
        text,
        rw e refl,
        response_filter-Runs value r st response,
        with_header-IsSecured value response text t,
        directives_text-Reads config h,
      )
