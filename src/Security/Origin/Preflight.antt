-- ===== src/Security/Origin/Preflight.antt =====
-- src/security/origin.rs: the answer to a preflight request; and src/util/mod.rs.
pub mod Decision
pub mod Lists
use mathlib.Core.Option
use myth.Prelude.{
  ℕ, ◌≡◌, Bool, true, false, not, Option, none, some, List, [], ◌∷◌, ◌==◌, ◌||◌, any, if◌then◌else◌,
  Result, ok, err,
}
use myth.Text.{Str, trim_matches, split, split_whitespace}
use myth.Http.{
  Http, access_control_allow_origin, access_control_request_method, access_control_request_headers,
}
use myth.Request.{Request, header, header_all}
use myth.Response.{Response, default}
use myth.Security.Origin.{CorsData}

-- `StrExt::trim_spaces_tabs` of src/util/mod.rs
unfoldable pub trim_spaces_tabs : Str → Str
unfolding trim_matches
trim_spaces_tabs s = trim_matches (λ c. c == 0x20 || c == 0x09) s

-- `enum Origin`
pub data Origin : Type 0 where
  allowed disallowed any_allowed : Origin

-- `?` on a `Result`
abbrev pub and_then : Result (Unit {0}) ℕ → Result (Unit {0}) ℕ → Result (Unit {0}) ℕ
and_then (ok u) later = later
and_then (err status) later = err status

-- `.err().unwrap_or(StatusCode::NO_CONTENT)`
abbrev pub status_of : Result (Unit {0}) ℕ → ℕ
status_of (ok u) = 204
status_of (err status) = status

module _ {H : Http} where
  unfoldable pub check_origin : CorsData H → H.HeaderValue → Origin
  check_origin cors value = elim cors.origins [
    | none ↦ any_allowed
    | some origins ↦ if any (λ o. H.value_eq value o) origins then allowed else disallowed
  ]

  -- `self.allow_headers.iter().any(|header| header == request_header)`
  abbrev pub header_allowed : CorsData H → Str → Bool
  header_allowed cors name = any (λ h. H.name_eq h name) cors.allow_headers

  -- The two inner loops, which return at the first header that is not allowed.
  pub check_padded : CorsData H → List Str → Result (Unit {0}) ℕ
  check_padded cors [] = ok tt
  check_padded cors (padded ∷ rest) =
      let later = check_padded cors rest in
      if not (header_allowed cors (trim_spaces_tabs padded)) then err 403 else later

  pub check_words : CorsData H → List Str → Result (Unit {0}) ℕ
  check_words cors [] = ok tt
  check_words cors (word ∷ rest) =
      let later = check_words cors rest in if not (header_allowed cors word) then err 403 else later

  pub check_text : CorsData H → Str → Result (Unit {0}) ℕ
  check_text cors text =
      and_then (check_padded cors (split b',' text)) (check_words cors (split_whitespace text))

  -- The loop over the values of `Access-Control-Request-Headers`.
  unfoldable pub check_headers : CorsData H → List H.HeaderValue → Result (Unit {0}) ℕ
  check_headers cors [] = ok tt
  check_headers cors (value ∷ values) =
      let later = check_headers cors values in
      elim (H.to_str value) [ none ↦ err 403 | some text ↦ and_then (check_text cors text) later ]

  -- What follows the check of the origin.
  pub check_method : CorsData H → Request H → Result (Unit {0}) ℕ
  check_method cors request = elim (header request (H.known access_control_request_method)) [
    | none ↦ err 400
    | some value ↦
        if not (any (λ m. H.value_eq value (H.as_str m)) cors.methods)
        then err 403
        else check_headers cors (header_all request (H.known access_control_request_headers))
  ]

  -- `headers` is changed in place, so it is returned with the result.
  unfoldable pub preflight_impl :
      CorsData H → H.HeaderMap → Request H → H.HeaderValue → H.HeaderMap × Result (Unit {0}) ℕ
  unfolding check_method
  preflight_impl cors headers request value = elim (check_origin cors value) [
    | allowed ↦
        (H.append (H.known access_control_allow_origin) value headers, check_method cors request)
    | disallowed ↦ (headers, err 403)
    | any_allowed ↦ (headers, check_method cors request)
  ]

  unfoldable pub preflight : CorsData H → Request H → H.HeaderValue → Response H
  preflight cors request value =
      let (headers, result) = preflight_impl cors cors.preflight_headers request value in
      record default { status = status_of result; headers = headers }
