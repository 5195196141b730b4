-- ===== src/Tests/Cors.antt =====
-- Examples for src/security/origin.rs.
use myth.Prelude.{true, ◌≡◌, ◌≢◌, ◌↔◌, inl, none, some, List, [], ◌∷◌, ◌++◌, false, refl}
use myth.Text.{Str, str}
use myth.Http.{
  get, options, KnownHeader, origin, access_control_request_method, access_control_request_headers,
}
use myth.Http.Sample.{sample}
use myth.Request.{Request, header, header_all}
use myth.Response.{Response, Responder, text_responder}
use myth.Future.{drive, poll_ready}
use myth.Tuple.{One, from_inner}
use myth.Filter.{Filter, Runs, run_for}
use myth.Path.{param_str}
use myth.Security.Origin.{CorsData, Config, new, method}
use myth.Security.Origin.Builder.{
  Configured, started, with_method, IsWellFormed, Configured-IsWellFormed,
}
use myth.Security.Origin.Preflight.{preflight}
use myth.Security.Origin.Preflight.Decision.{IsAllowedRequest, preflight_iff}
use myth.Security.Origin.Preflight.Lists.{preflight-list}
use myth.Security.Origin.Cors.{Headers, apply_headers, cors_filter}
use myth.Security.Origin.Cors.Permitted.{values, apply_headers_lem}
use myth.Security.Origin.Cors.Permission.{IsAllowedOrigin}
use myth.Security.Origin.Cors.Meaning.{CorsSpec, cors-Runs}
use myth.Tests.{state_at, succeeded}

abbrev site : Str
site = str "https://a.example"

abbrev configured : CorsData sample
configured = record {
  origins = some (site ∷ []);
  methods = get ∷ [];
  allow_headers = KnownHeader.content_type ∷ KnownHeader.vary ∷ [];
  expose_headers = none;
  preflight_headers = λ n. [];
  credentials = false;
}

abbrev asked_headers : KnownHeader → List Str
asked_headers origin = site ∷ []
asked_headers access_control_request_method = str "GET" ∷ []
asked_headers access_control_request_headers = str "content-type, vary" ∷ []
asked_headers _ = []

-- A preflight request that asks for two allowed headers.
abbrev asking : Request sample
asking = record {
  method = options;
  uri = (str "/users/7", none);
  version = tt;
  headers = asked_headers;
  remote_addr = 0;
}

abbrev guarded : Filter sample (Unit {0}) (One (Response sample))
guarded = cors_filter text_responder configured param_str

preflight_iff_example :
    (Response.status (preflight configured asking site) ≡ 204)
    ↔ (IsAllowedOrigin configured site × IsAllowedRequest configured asking)
preflight_iff_example = preflight_iff configured asking site

preflight-list_example : Response.status (preflight configured asking site) ≢ 204
unfolding header_all
preflight-list_example =
    preflight-list configured asking site (inl (str "content-type, vary", refl, refl))

cors-Runs_example :
    Runs guarded asking
      (state_at 0)
      tt
      (succeeded 0 (from_inner (preflight configured asking site)))
    ↔ CorsSpec text_responder configured param_str asking
        (state_at 0)
        tt
        (succeeded 0 (from_inner (preflight configured asking site)))
cors-Runs_example =
    cors-Runs text_responder configured param_str asking (state_at 0) tt
      (succeeded 0 (from_inner (preflight configured asking site)))

-- The preflight request is answered at the first poll.
guarded_test :
    run_for guarded asking 1 (state_at 0) tt
    ≡ some (succeeded 0 (from_inner (preflight configured asking site)))
unfolding drive cors_filter header poll_ready
guarded_test = refl

abbrev compared : Headers sample
compared = record {
  origin = site;
  expose_headers = some (str "vary");
  credentials = true;
  vary = true;
}

abbrev plain : Response sample
plain = Responder.into_response text_responder (str "a")

apply_headers_lem_example :
    (values KnownHeader.access_control_allow_origin
        (apply_headers text_responder compared (str "a"))
      ≡ site ∷ [])
    × (values KnownHeader.access_control_expose_headers
          (apply_headers text_responder compared (str "a"))
        ≡ str "vary" ∷ [])
    × (values KnownHeader.access_control_allow_credentials
          (apply_headers text_responder compared (str "a"))
        ≡ str "true" ∷ [])
    × (values KnownHeader.vary (apply_headers text_responder compared (str "a"))
        ≡ values KnownHeader.vary plain ++ str "origin" ∷ [])
apply_headers_lem_example = apply_headers_lem text_responder compared (str "a")

abbrev one_method : Config sample
one_method = record (new sample) { methods = get ∷ [] }

one_method-Configured : Configured one_method
unfolding new method
one_method-Configured = with_method (some get) started refl

Configured-IsWellFormed_example : IsWellFormed one_method
Configured-IsWellFormed_example = Configured-IsWellFormed one_method one_method-Configured
