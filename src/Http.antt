-- ===== src/Http.antt =====
-- What the program takes from the crates http, hyper, bytes, percent-encoding, mime, httpdate and
-- serde, which are not part of the repository: their types and the operations that the program calls, with the documented
-- behaviour that it relies on. Every other module takes such a record as a parameter.
pub mod Sample
pub mod Known
use mathlib.Core.List.{head?}
use mathlib.Core.Logic.{ite}
use myth.Prelude.{ℕ, Bool, Option, List, [], ◌∷◌, ◌++◌, ◌≡◌, some, none, true, false, all}
use myth.Text.{Str, str, str_eq, contains, visible}

-- The methods of the macro `all_methods`.
pub data StandardMethod : Type 0 where
  get post put delete head options connect patch trace : StandardMethod

abbrev pub standard_name : StandardMethod → Str
standard_name get = str "GET"
standard_name post = str "POST"
standard_name put = str "PUT"
standard_name delete = str "DELETE"
standard_name head = str "HEAD"
standard_name options = str "OPTIONS"
standard_name connect = str "CONNECT"
standard_name patch = str "PATCH"
standard_name trace = str "TRACE"

-- The header names that the program names.
pub data KnownHeader : Type 0 where
  allow location content_type content_length origin vary if_modified_since : KnownHeader
  strict_transport_security x_content_type_options : KnownHeader
  access_control_allow_origin access_control_allow_methods access_control_allow_headers :
      KnownHeader
  access_control_allow_credentials access_control_expose_headers access_control_max_age :
      KnownHeader
  access_control_request_method access_control_request_headers : KnownHeader

-- The statuses that `default_response` is called with, and their numbers.
pub data NamedStatus : Type 0 where
  permanent_redirect bad_request forbidden not_found method_not_allowed : NamedStatus
  payload_too_large unsupported_media_type internal_server_error : NamedStatus

abbrev pub code : NamedStatus → ℕ
code permanent_redirect = 308
code bad_request = 400
code forbidden = 403
code not_found = 404
code method_not_allowed = 405
code payload_too_large = 413
code unsupported_media_type = 415
code internal_server_error = 500

-- What a body's stream yields: a chunk, an error, or that nothing is ready for now. The stream ends where
-- the list of them ends. `endless` stands for a stream that never ends or fails from there on: at each of
-- the further polls some chunks are ready, maybe none, and then nothing is for now.
pub data BodyEvent (HyperError : Type 0) : Type 0 where
  chunk : List ℕ → BodyEvent HyperError
  failed : HyperError → BodyEvent HyperError
  wait : BodyEvent HyperError
  endless : (ℕ → List (List ℕ)) → BodyEvent HyperError

pub record Http : Type 1 where
  pub Method : Type 0
  pub Method-discrete : Discrete Method
  pub standard : StandardMethod → Method
  pub as_str : Method → Str
  pub as_str-standard : (m : StandardMethod) → as_str (standard m) ≡ standard_name m
  pub HeaderName : Type 0
  pub HeaderName-discrete : Discrete HeaderName
  pub known : KnownHeader → HeaderName
  pub known-injective : (a b : KnownHeader) → known a ≡ known b → a ≡ b
  pub name_str : HeaderName → Str
  -- `HeaderName == str`, which ignores case
  pub name_eq : HeaderName → Str → Bool
  -- A header name is a token, and no token holds a comma.
  pub name_eq-comma : (n : HeaderName) (s : Str) → contains b',' s ≡ true → name_eq n s ≡ false
  pub HeaderValue : Type 0
  pub to_str : HeaderValue → Option Str
  -- `HeaderValue == str`, on the bytes
  pub value_eq : HeaderValue → Str → Bool
  pub try_from : Str → Option HeaderValue
  -- A text of printable ASCII is a header value.
  pub try_from-visible :
      (s : Str)
      → all visible s ≡ true
      → (v : HeaderValue) × (try_from s ≡ some v) × (to_str v ≡ some s)
  pub from_static : Str → HeaderValue
  pub from_name : HeaderName → HeaderValue
  pub from_u64 : ℕ → HeaderValue
  pub value_eq-to_str :
      (v : HeaderValue) (s t : Str) → to_str v ≡ some s → value_eq v t ≡ str_eq s t
  pub HeaderMap : Type 0
  pub new_map : HeaderMap
  pub get_all : HeaderName → HeaderMap → List HeaderValue
  pub insert : HeaderName → HeaderValue → HeaderMap → HeaderMap
  pub append : HeaderName → HeaderValue → HeaderMap → HeaderMap
  pub get_all-new_map : (n : HeaderName) → get_all n new_map ≡ []
  pub get_all-insert :
      (n k : HeaderName) (v : HeaderValue) (m : HeaderMap)
      → get_all n (insert k v m) ≡ ite (HeaderName-discrete n k) (v ∷ []) (get_all n m)
  pub get_all-append :
      (n k : HeaderName) (v : HeaderValue) (m : HeaderMap)
      → get_all n (append k v m)
        ≡ ite (HeaderName-discrete n k) (get_all n m ++ v ∷ []) (get_all n m)
  pub Uri : Type 0
  pub path : Uri → Str
  pub query : Uri → Option Str
  pub Version : Type 0
  pub SocketAddr : Type 0
  pub HyperError : Type 0
  pub OnUpgrade : Type 0
  pub Body : Type 0
  pub events : Body → List (BodyEvent HyperError)
  pub empty_body : Body
  pub body_from : Str → Body
  -- `StatusCode::canonical_reason`
  pub canonical_reason : ℕ → Option Str
  pub canonical_reason-code :
      (s : NamedStatus) → (reason : Str) × (canonical_reason (code s) ≡ some reason)
  -- `percent_decode_str(s).decode_utf8()` and `.decode_utf8_lossy()`
  pub decode_utf8 : Str → Option Str
  pub decode_utf8_lossy : Str → Str
  -- `Mime::from_str`, and comparison of its type, of its subtype
  pub Mime : Type 0
  pub parse_mime : Str → Option Mime
  pub type_is : Mime → Str → Bool
  pub subtype_is : Mime → Str → Bool
  -- `SystemTime`, its order, and `httpdate::parse_http_date`
  pub SystemTime : Type 0
  pub later : SystemTime → SystemTime → Bool
  pub parse_http_date : Str → Option SystemTime
  -- `serde_json::Error` and `serde_urlencoded::de::Error`
  pub JsonError : Type 0
  pub UrlencodedError : Type 0
  -- An error type of the application: its `TypeId` and its values.
  pub ErrorId : Type 0
  pub ErrorId-discrete : Discrete ErrorId
  pub ErrorValue : ErrorId → Type 0

-- `HeaderMap::get`: the first value
abbrev pub get_header : (H : Http) → H.HeaderName → H.HeaderMap → Option H.HeaderValue
get_header H n m = head? (H.get_all n m)
