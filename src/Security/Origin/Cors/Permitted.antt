-- ===== src/Security/Origin/Cors/Permitted.antt =====
-- The headers of a response to a request that is permitted.
use myth.Prelude.{
  ◌≡◌, ◌≢◌, ◌∙◌, refl, ap, Bool, true, false, Option, none, some, List, [], ◌∷◌, ◌++◌,
  if◌then◌else◌, unwrap_or,
}
use mathlib.Core.Option
use myth.Text.{str}
use myth.Http.{
  Http, KnownHeader, access_control_allow_origin, access_control_expose_headers,
  access_control_allow_credentials,
}
use myth.Http.Known.{
  get_all-insert_same, get_all-append_same, get_all-insert_other, get_all-append_other,
}
use myth.Response.{Response, Responder, response_responder, with_header}
use myth.Security.Origin.Cors.{Headers, apply_headers, expose, credit, vary_if, vary_origin}

module _ {H : Http} where
  -- The values of a header of a response.
  abbrev pub values : KnownHeader → Response H → List H.HeaderValue
  values k response = H.get_all (H.known k) response.headers

  module _ {R : Type 0} (responder : Responder H R) (k : KnownHeader) (v : H.HeaderValue)
      (r : R) where
    with_header-values : values k (with_header responder (H.known k) v r) ≡ v ∷ []
    unfolding with_header
    with_header-values = get_all-insert_same H (H.known k) v (responder.into_response r).headers

    with_header-other :
        (other : KnownHeader)
        → other ≢ k
        → values other (with_header responder (H.known k) v r)
          ≡ values other (responder.into_response r)
    unfolding with_header
    with_header-other other n =
        get_all-insert_other H other k v (responder.into_response r).headers n

  vary_origin-values :
      (response : Response H)
      → values KnownHeader.vary (vary_origin response)
        ≡ values KnownHeader.vary response ++ H.from_name (H.known KnownHeader.origin) ∷ []
  unfolding vary_origin
  vary_origin-values response =
      get_all-append_same H (H.known KnownHeader.vary) (H.from_name (H.known KnownHeader.origin))
        response.headers

  vary_origin-other :
      (other : KnownHeader) (response : Response H)
      → other ≢ KnownHeader.vary
      → values other (vary_origin response) ≡ values other response
  unfolding vary_origin
  vary_origin-other other response n =
      get_all-append_other H other KnownHeader.vary (H.from_name (H.known KnownHeader.origin))
        response.headers n

  expose-values :
      (v : Option H.HeaderValue) (response : Response H)
      → values access_control_expose_headers (expose v response)
        ≡ unwrap_or (values access_control_expose_headers response) (Option.map (λ x. x ∷ []) v)
  unfolding expose
  expose-values none response = refl
  expose-values (some v) response =
      with_header-values response_responder access_control_expose_headers v response

  expose-other :
      (v : Option H.HeaderValue) (other : KnownHeader) (response : Response H)
      → other ≢ access_control_expose_headers
      → values other (expose v response) ≡ values other response
  unfolding expose
  expose-other none other response n = refl
  expose-other (some v) other response n =
      with_header-other response_responder access_control_expose_headers v response other n

  credit-values :
      (credentials : Bool) (response : Response H)
      → values access_control_allow_credentials (credit credentials response) ≡ (
          if credentials
          then H.from_static (str "true") ∷ []
          else values access_control_allow_credentials response)
  unfolding credit
  credit-values false response = refl
  credit-values true response =
      with_header-values response_responder access_control_allow_credentials
        (H.from_static (str "true")) response

  credit-other :
      (credentials : Bool) (other : KnownHeader) (response : Response H)
      → other ≢ access_control_allow_credentials
      → values other (credit credentials response) ≡ values other response
  unfolding credit
  credit-other false other response n = refl
  credit-other true other response n =
      with_header-other response_responder access_control_allow_credentials
        (H.from_static (str "true")) response other n

  vary_if-values :
      (varies : Bool) (response : Response H)
      → values KnownHeader.vary (vary_if varies response) ≡ (
          if varies
          then values KnownHeader.vary response ++ H.from_name (H.known KnownHeader.origin) ∷ []
          else values KnownHeader.vary response)
  unfolding vary_if
  vary_if-values false response = refl
  vary_if-values true response = vary_origin-values response

  vary_if-other :
      (varies : Bool) (other : KnownHeader) (response : Response H)
      → other ≢ KnownHeader.vary
      → values other (vary_if varies response) ≡ values other response
  unfolding vary_if
  vary_if-other false other response n = refl
  vary_if-other true other response n = vary_origin-other other response n

  module _ {R : Type 0} (responder : Responder H R) (h : Headers H) (r : R) where
    abbrev first : Response H
    first = with_header responder (H.known access_control_allow_origin) h.origin r

    abbrev second : Response H
    second = expose h.expose_headers first

    abbrev third : Response H
    third = credit h.credentials second

    applied : apply_headers responder h r ≡ vary_if h.vary third
    unfolding apply_headers
    applied = refl

    -- A header that none of the later steps sets is as the first step leaves it.
    untouched :
        (k : KnownHeader)
        → k ≢ access_control_expose_headers
        → k ≢ access_control_allow_credentials
        → k ≢ KnownHeader.vary
        → values k (vary_if h.vary third) ≡ values k first
    untouched k a b c =
        vary_if-other h.vary k third c
        ∙ credit-other h.credentials k second b
        ∙ expose-other h.expose_headers k first a

    -- A response to a permitted request names the origin once, whatever the responder set, lists the
    -- exposed headers and allows credentials if so configured, and has `Origin` added to `Vary` if the
    -- origin was compared.
    pub apply_headers_lem :
        (values access_control_allow_origin (apply_headers responder h r) ≡ h.origin ∷ [])
        × (values access_control_expose_headers (apply_headers responder h r)
            ≡ unwrap_or
                (values access_control_expose_headers (responder.into_response r))
                (Option.map (λ x. x ∷ []) h.expose_headers))
        × (values access_control_allow_credentials (apply_headers responder h r) ≡ (
            if h.credentials
            then H.from_static (str "true") ∷ []
            else values access_control_allow_credentials (responder.into_response r)))
        × (values KnownHeader.vary (apply_headers responder h r) ≡ (
            if h.vary
            then values KnownHeader.vary (responder.into_response r)
              ++ H.from_name (H.known KnownHeader.origin) ∷ []
            else values KnownHeader.vary (responder.into_response r)))
    apply_headers_lem = rw applied (
      untouched access_control_allow_origin (λ e. cc) (λ e. cc) (λ e. cc)
          ∙ with_header-values responder access_control_allow_origin h.origin r,
      vary_if-other h.vary access_control_expose_headers third (λ e. cc)
          ∙ credit-other h.credentials access_control_expose_headers second (λ e. cc)
          ∙ expose-values h.expose_headers first
          ∙ ap (λ l. unwrap_or l (Option.map (λ x. x ∷ []) h.expose_headers))
              (with_header-other responder access_control_allow_origin h.origin r
                access_control_expose_headers (λ e. cc)),
      vary_if-other h.vary access_control_allow_credentials third (λ e. cc)
          ∙ credit-values h.credentials second
          ∙ ap (λ l. if h.credentials then H.from_static (str "true") ∷ [] else l)
              (expose-other h.expose_headers access_control_allow_credentials first (λ e. cc)
                ∙ with_header-other responder access_control_allow_origin h.origin r
                    access_control_allow_credentials (λ e. cc)),
      vary_if-values h.vary third
          ∙ ap (λ l. if h.vary then l ++ H.from_name (H.known KnownHeader.origin) ∷ [] else l)
              (credit-other h.credentials KnownHeader.vary second (λ e. cc)
                ∙ expose-other h.expose_headers KnownHeader.vary first (λ e. cc)
                ∙ with_header-other responder access_control_allow_origin h.origin r
                    KnownHeader.vary (λ e. cc)),
    )
