-- ===== src/Http/Sample.antt =====
-- A small instance of the interface, for tests and for examples at concrete requests: methods and header
-- names are the ones that the program names, texts are header values, and a map is a function.
use mathlib.Core.Logic.{ite}
use mathlib.Core.Option.{some-injective}
use myth.Prelude.{
  ℕ, ◌≡◌, refl, ap, Bool, true, false, Option, none, some, List, [], ◌∷◌, ◌++◌, Bool-cases, inl,
  inr, if◌then◌else◌, ◌==◌, ltb, length,
}
use myth.Text.{Str, str, str_eq, contains, split}
use myth.Text.Slices.{str_eq_iff}
use myth.Http.{
  Http, StandardMethod, standard_name, KnownHeader, allow, location, content_type, content_length,
  origin, vary, if_modified_since, strict_transport_security, x_content_type_options,
  access_control_allow_origin, access_control_allow_methods, access_control_allow_headers,
  access_control_allow_credentials, access_control_expose_headers, access_control_max_age,
  access_control_request_method, access_control_request_headers, BodyEvent, chunk, NamedStatus,
  code, permanent_redirect, bad_request, forbidden, not_found, method_not_allowed,
  payload_too_large, unsupported_media_type, internal_server_error,
}

abbrev pub StandardMethod-discrete : Discrete StandardMethod
StandardMethod-discrete = hlevel

abbrev pub KnownHeader-discrete : Discrete KnownHeader
KnownHeader-discrete = hlevel

abbrev header_text : KnownHeader → Str
header_text allow = str "allow"
header_text location = str "location"
header_text content_type = str "content-type"
header_text content_length = str "content-length"
header_text origin = str "origin"
header_text vary = str "vary"
header_text if_modified_since = str "if-modified-since"
header_text strict_transport_security = str "strict-transport-security"
header_text x_content_type_options = str "x-content-type-options"
header_text access_control_allow_origin = str "access-control-allow-origin"
header_text access_control_allow_methods = str "access-control-allow-methods"
header_text access_control_allow_headers = str "access-control-allow-headers"
header_text access_control_allow_credentials = str "access-control-allow-credentials"
header_text access_control_expose_headers = str "access-control-expose-headers"
header_text access_control_max_age = str "access-control-max-age"
header_text access_control_request_method = str "access-control-request-method"
header_text access_control_request_headers = str "access-control-request-headers"

header_text-comma : (n : KnownHeader) → contains b',' (header_text n) ≡ false
header_text-comma allow = refl
header_text-comma location = refl
header_text-comma content_type = refl
header_text-comma content_length = refl
header_text-comma origin = refl
header_text-comma vary = refl
header_text-comma if_modified_since = refl
header_text-comma strict_transport_security = refl
header_text-comma x_content_type_options = refl
header_text-comma access_control_allow_origin = refl
header_text-comma access_control_allow_methods = refl
header_text-comma access_control_allow_headers = refl
header_text-comma access_control_allow_credentials = refl
header_text-comma access_control_expose_headers = refl
header_text-comma access_control_max_age = refl
header_text-comma access_control_request_method = refl
header_text-comma access_control_request_headers = refl

pub name_eq-comma :
    (n : KnownHeader) (s : Str) → contains b',' s ≡ true → str_eq (header_text n) s ≡ false
name_eq-comma n s h = elim (Bool-cases (str_eq (header_text n) s)) [
  | inl e ↦
      absurd (cc (h, header_text-comma n, ap (contains b',') ((str_eq_iff (header_text n) s).0 e)))
  | inr e ↦ e
]

-- A text without escapes stands for itself; `%` is followed by nothing that decodes.
abbrev decoded : Str → Option Str
decoded s = if contains b'%' s then none else some s

abbrev reason : ℕ → Option Str
reason status =
    if status == 304
    then some (str "Not Modified")
    else if status == 308
    then some (str "Permanent Redirect")
    else if status == 400
    then some (str "Bad Request")
    else if status == 403
    then some (str "Forbidden")
    else if status == 404
    then some (str "Not Found")
    else if status == 405
    then some (str "Method Not Allowed")
    else if status == 413
    then some (str "Payload Too Large")
    else if status == 415
    then some (str "Unsupported Media Type")
    else if status == 500
    then some (str "Internal Server Error")
    else none

pub reason-code : (s : NamedStatus) → (text : Str) × (reason (code s) ≡ some text)
reason-code permanent_redirect = (_, refl)
reason-code bad_request = (_, refl)
reason-code forbidden = (_, refl)
reason-code not_found = (_, refl)
reason-code method_not_allowed = (_, refl)
reason-code payload_too_large = (_, refl)
reason-code unsupported_media_type = (_, refl)
reason-code internal_server_error = (_, refl)

abbrev pub sample : Http
sample = record {
  Method = StandardMethod;
  Method-discrete = StandardMethod-discrete;
  standard = λ m. m;
  as_str = standard_name;
  as_str-standard = λ m. refl;
  HeaderName = KnownHeader;
  HeaderName-discrete = KnownHeader-discrete;
  known = λ k. k;
  known-injective = λ a b e. e;
  name_str = header_text;
  name_eq = λ n s. str_eq (header_text n) s;
  name_eq-comma = name_eq-comma;
  HeaderValue = Str;
  to_str = some;
  value_eq = str_eq;
  try_from = some;
  try_from-visible = λ s h. (s, refl, refl);
  from_static = λ s. s;
  from_name = header_text;
  from_u64 = λ n. n ∷ [];
  value_eq-to_str = λ v s t e. ap (λ x. str_eq x t) (some-injective v s e);
  HeaderMap = KnownHeader → List Str;
  new_map = λ n. [];
  get_all = λ n m. m n;
  insert = λ k v m n. ite (KnownHeader-discrete n k) (v ∷ []) (m n);
  append = λ k v m n. ite (KnownHeader-discrete n k) (m n ++ v ∷ []) (m n);
  get_all-new_map = λ n. refl;
  get_all-insert = λ n k v m. refl;
  get_all-append = λ n k v m. refl;
  Uri = Str × Option Str;
  path = λ u. u.0;
  query = λ u. u.1;
  Version = Unit;
  SocketAddr = ℕ;
  HyperError = ℕ;
  OnUpgrade = Unit;
  Body = List (BodyEvent ℕ);
  events = λ body. body;
  empty_body = [];
  body_from = λ s. chunk s ∷ [];
  canonical_reason = reason;
  canonical_reason-code = reason-code;
  Mime = Str × Str;
  parse_mime = λ s. elim (split b'/' s) [ a ∷ b ∷ [] ↦ some (a, b) | _ ↦ none ];
  type_is = λ m s. str_eq m.0 s;
  subtype_is = λ m s. str_eq m.1 s;
  SystemTime = ℕ;
  later = λ a b. ltb b a;
  parse_http_date = λ s. if contains b'?' s then none else some (length s);
  JsonError = ℕ;
  UrlencodedError = ℕ;
  decode_utf8 = decoded;
  decode_utf8_lossy = λ s. s;
  ErrorId = Bool;
  ErrorId-discrete = hlevel;
  ErrorValue = λ e. ℕ;
}
