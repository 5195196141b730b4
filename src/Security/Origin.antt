-- ===== src/Security/Origin.antt =====
-- src/security/origin.rs: the configuration of origin checking, and what is kept of it for requests.
pub mod Preflight
pub mod Cors
pub mod Builder
use mathlib.Core.Logic.{ite}
use myth.Prelude.{
  ℕ, ◌≡◌, Bool, true, false, not, Option, none, some, List, [], ◌∷◌, ◌++◌, any, if◌then◌else◌,
  ◌>>=◌, unwrap_or,
}
use mathlib.Core.Option
use myth.Text.{Str, str}
use myth.Http.{
  Http, options, vary, access_control_allow_origin, access_control_allow_methods,
  access_control_allow_headers, access_control_expose_headers, access_control_allow_credentials,
  access_control_max_age,
}
use myth.Filter.{Filter}

-- `std::time::Duration`
pub record Duration : Type 0 where
  pub secs : ℕ
  pub nanos : ℕ

-- `Vec::contains`
abbrev pub contains : {A : Type 0} → Discrete A → A → List A → Bool
contains same x xs = any (λ y. ite (same y x) true false) xs

module _ (H : Http) where
  pub record Config : Type 0 where
    pub origins : Option (List Str)
    pub methods : List H.Method
    pub allow_headers : List H.HeaderName
    pub expose_headers : List H.HeaderName
    pub max_age : Option Duration
    pub credentials : Bool

  unfoldable pub new : Config
  new = record {
    origins = some [];
    methods = [];
    allow_headers = [];
    expose_headers = [];
    max_age = none;
    credentials = false;
  }

-- The loop of `join_to_header_value` over the values after the first.
pub join_rest : {T : Type 0} → (T → Str) → Str → List T → Str
join_rest as_ref string [] = string
join_rest as_ref string (value ∷ values) =
    join_rest as_ref ((string ++ str ", ") ++ as_ref value) values

module _ (H : Http) where
  unfoldable pub join_to_header_value : {T : Type 0} → (T → Str) → List T → Option H.HeaderValue
  unfolding join_rest
  join_to_header_value as_ref [] = none
  join_to_header_value as_ref (value ∷ values) = H.try_from (join_rest as_ref (as_ref value) values)

  -- `if let Some(value) = … { headers.insert(name, value); }`
  abbrev pub insert_some : H.HeaderName → Option H.HeaderValue → H.HeaderMap → H.HeaderMap
  insert_some name none headers = headers
  insert_some name (some value) headers = H.insert name value headers

  -- The first `match` of `preflight_headers`.
  pub origin_headers : Option (List Str) → H.HeaderMap → H.HeaderMap
  origin_headers (some origins) headers =
      H.insert (H.known vary)
        (H.from_static
          (str "Origin, Access-Control-Request-Method, Access-Control-Request-Headers"))
        headers
  origin_headers none headers =
      H.insert (H.known vary)
        (H.from_static (str "Access-Control-Request-Method, Access-Control-Request-Headers"))
        (H.insert (H.known access_control_allow_origin) (H.from_static (str "*")) headers)

module _ {H : Http} where
  -- `get_or_insert_with(Vec::new).push(origin)`
  unfoldable pub origin : Str → Config H → Config H
  origin o config = record config { origins = some (unwrap_or [] config.origins ++ o ∷ []) }

  unfoldable pub any_origin : Config H → Config H
  any_origin config = record config { origins = none }

  -- The argument is what `try_into` gives; `none` is a panic.
  unfoldable pub method : Option H.Method → Config H → Option (Config H)
  method none config = none
  method (some m) config = ite (H.Method-discrete m (H.standard options)) none (
      some (
        if not (contains H.Method-discrete m config.methods)
        then record config { methods = config.methods ++ m ∷ [] }
        else config))

  unfoldable pub allow_header : Option H.HeaderName → Config H → Option (Config H)
  allow_header none config = none
  allow_header (some name) config = some (
      if not (contains H.HeaderName-discrete name config.allow_headers)
      then record config { allow_headers = config.allow_headers ++ name ∷ [] }
      else config)

  unfoldable pub expose_header : Option H.HeaderName → Config H → Option (Config H)
  expose_header none config = none
  expose_header (some name) config = some (
      if not (contains H.HeaderName-discrete name config.expose_headers)
      then record config { expose_headers = config.expose_headers ++ name ∷ [] }
      else config)

  unfoldable pub max_age : Duration → Config H → Config H
  max_age age config = record config { max_age = some age }

  unfoldable pub credentials : Config H → Config H
  credentials config = record config { credentials = true }

  -- `expose_headers`; the outer `none` is a panic.
  unfoldable pub expose_headers_value : Config H → Option (Option H.HeaderValue)
  expose_headers_value config = elim config.expose_headers [
    | [] ↦ some none
    | ◌∷◌ name names ↦ Option.map some (join_to_header_value H H.name_str (name ∷ names))
  ]

  -- `if !self.allow_headers.is_empty() { headers.insert(…) }`
  pub allow_headers_value : Config H → Option (Option H.HeaderValue)
  allow_headers_value config = elim config.allow_headers [
    | [] ↦ some none
    | ◌∷◌ name names ↦ Option.map some (join_to_header_value H H.name_str (name ∷ names))
  ]

  unfoldable pub preflight_headers : Config H → Option H.HeaderMap
  unfolding origin_headers allow_headers_value expose_headers_value join_to_header_value
  preflight_headers config = do
    methods ← join_to_header_value H H.as_str config.methods
    allowed ← allow_headers_value config
    exposed ← expose_headers_value config
    some (
        insert_some H (H.known access_control_max_age)
          (Option.map (λ age. H.from_u64 (Duration.secs age)) config.max_age)
          (insert_some H (H.known access_control_allow_credentials)
            (if config.credentials then some (H.from_static (str "true")) else none)
            (insert_some H (H.known access_control_expose_headers) exposed (
              insert_some H (H.known access_control_allow_headers) allowed (
                H.insert (H.known access_control_allow_methods) methods
                  (origin_headers H config.origins H.new_map))))))

-- The fields of `Cors` besides the filter.
pub record CorsData (H : Http) : Type 0 where
  pub origins : Option (List Str)
  pub methods : List H.Method
  pub allow_headers : List H.HeaderName
  pub expose_headers : Option H.HeaderValue
  pub preflight_headers : H.HeaderMap
  pub credentials : Bool

module _ {H : Http} where
  -- `Cors::new`
  unfoldable pub new_cors : Config H → Option (CorsData H)
  unfolding preflight_headers expose_headers_value
  new_cors config = do
    headers ← preflight_headers config
    exposed ← expose_headers_value config
    some (record {
      origins = config.origins;
      methods = config.methods;
      allow_headers = config.allow_headers;
      expose_headers = exposed;
      preflight_headers = headers;
      credentials = config.credentials;
    })

  -- The assertions of `apply`.
  pub assert_origins : Config H → Bool
  assert_origins config = elim config.origins [
    | none ↦ true
    | some origins ↦ elim origins [ [] ↦ false | ◌∷◌ o os ↦ true ]
  ]

  pub assert_methods : Config H → Bool
  assert_methods config = elim config.methods [ [] ↦ false | ◌∷◌ m ms ↦ true ]

  unfoldable pub apply : Config H → Option (CorsData H)
  unfolding new_cors assert_origins assert_methods
  apply config =
      if not (assert_origins config)
      then none
      else if not (assert_methods config)
      then none
      else new_cors config
