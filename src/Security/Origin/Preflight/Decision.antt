-- ===== src/Security/Origin/Preflight/Decision.antt =====
-- When a preflight request is allowed.
use mathlib.Core.Path.{subst}
use myth.Prelude.{
  ℕ, ◌≡◌, ◌≢◌, ◌↔◌, ◌⊎◌, inl, inr, true, some, List, [], ◌∷◌, refl, sym, ap, ◌∙◌, arith, any, All,
  Exists, Exists-of_any, any_of_Exists, Bool-cases, Option-cases, Result, ok, err,
}
use myth.Text.{Str, split, split_whitespace}
use myth.Http.{Http, access_control_request_method, access_control_request_headers}
use myth.Request.{Request, header, header_all}
use myth.Response.{Response}
use myth.Security.Origin.{CorsData}
use myth.Security.Origin.Preflight.{
  trim_spaces_tabs, and_then, status_of, header_allowed, check_padded, check_words, check_text,
  check_headers, check_method, preflight_impl, preflight,
}
use myth.Security.Origin.Cors.Permission.{IsAllowedOrigin, origin_cases}

-- A check that says whether something holds, with status 403 if it does not.
abbrev pub Decides : Result (Unit {0}) ℕ → Type 0 → Type 0
Decides result P = ((result ≡ ok tt) × P) ⊎ ((result ≡ err 403) × (¬ P))

and_then-Decides :
    (a b : Result (Unit {0}) ℕ) (P Q : Type 0)
    → Decides a P
    → Decides b Q
    → Decides (and_then a b) (P × Q)
and_then-Decides a b P Q (inr (e, n)) k = inr (rw e, λ p. n p.0)
and_then-Decides a b P Q (inl (e, p)) (inl (f, q)) = inl (rw (e, f), (p, q))
and_then-Decides a b P Q (inl (e, p)) (inr (f, n)) = inr (rw (e, f), λ q. n q.1)

module _ {H : Http} (cors : CorsData H) where
  -- Each piece between commas and each word is the name of an allowed header.
  abbrev pub IsAllowedText : Str → Type 0
  IsAllowedText text =
      All (λ p. header_allowed cors (trim_spaces_tabs p) ≡ true) (split b',' text)
      × All (λ w. header_allowed cors w ≡ true) (split_whitespace text)

  abbrev pub IsAllowedValue : H.HeaderValue → Type 0
  IsAllowedValue value = (text : Str) × (H.to_str value ≡ some text) × IsAllowedText text

  abbrev pub IsAllowedRequestMethod : Request H → Type 0
  IsAllowedRequestMethod r =
      (value : H.HeaderValue) × (header r (H.known access_control_request_method) ≡ some value)
      × Exists (λ m. H.value_eq value (H.as_str m) ≡ true) cors.methods

  check_padded-Decides :
      (ps : List Str)
      → Decides
          (check_padded cors ps)
          (All (λ p. header_allowed cors (trim_spaces_tabs p) ≡ true) ps)
  unfolding check_padded
  check_padded-Decides [] = inl (refl, tt)
  check_padded-Decides (p ∷ ps) = elim (Bool-cases (header_allowed cors (trim_spaces_tabs p))) [
    | inl e ↦ elim (check_padded-Decides ps) [
      | inl (f, h) ↦ inl (rw (e, f), (e, h))
      | inr (f, n) ↦ inr (rw (e, f), λ h. n h.1)
    ]
    | inr e ↦ inr (rw e, λ h. absurd (cc (e, h.0)))
  ]

  check_words-Decides :
      (ws : List Str) → Decides (check_words cors ws) (All (λ w. header_allowed cors w ≡ true) ws)
  unfolding check_words
  check_words-Decides [] = inl (refl, tt)
  check_words-Decides (w ∷ ws) = elim (Bool-cases (header_allowed cors w)) [
    | inl e ↦ elim (check_words-Decides ws) [
      | inl (f, h) ↦ inl (rw (e, f), (e, h))
      | inr (f, n) ↦ inr (rw (e, f), λ h. n h.1)
    ]
    | inr e ↦ inr (rw e, λ h. absurd (cc (e, h.0)))
  ]

  check_text-Decides : (text : Str) → Decides (check_text cors text) (IsAllowedText text)
  unfolding check_text
  check_text-Decides text =
      and_then-Decides (check_padded cors (split b',' text))
        (check_words cors (split_whitespace text)) _ _ (check_padded-Decides (split b',' text))
        (check_words-Decides (split_whitespace text))

  allowed_text :
      (v : H.HeaderValue) (text : Str)
      → H.to_str v ≡ some text
      → IsAllowedValue v
      → IsAllowedText text
  allowed_text v text e (other, f, h) = subst IsAllowedText (cc (e, f)) h

  listed_method :
      (r : Request H) (value : H.HeaderValue)
      → header r (H.known access_control_request_method) ≡ some value
      → IsAllowedRequestMethod r
      → any (λ m. H.value_eq value (H.as_str m)) cors.methods ≡ true
  listed_method r value e (other, f, h) =
      any_of_Exists (λ m. H.value_eq value (H.as_str m)) cors.methods
        (subst (λ v. Exists (λ m. H.value_eq v (H.as_str m) ≡ true) cors.methods) (cc (e, f)) h)

  pub check_headers-Decides :
      (values : List H.HeaderValue)
      → Decides (check_headers cors values) (All IsAllowedValue values)
  unfolding check_headers
  check_headers-Decides [] = inl (refl, tt)
  check_headers-Decides (v ∷ vs) = elim (Option-cases (H.to_str v)) [
    | inl e ↦ inr (rw (check_headers, e), λ h. absurd (cc (e, h.0.1)))
    | inr (text, e) ↦
        elim (and_then-Decides (check_text cors text) (check_headers cors vs) _ _
          (check_text-Decides text) (check_headers-Decides vs)) [
            | inl (f, h) ↦ inl (rw (check_headers, e, f), ((text, e, h.0), h.1))
            | inr (f, n) ↦ inr (rw (check_headers, e, f), λ h. n (allowed_text v text e h.0, h.1))
          ]
  ]

  -- What a preflight request must name besides an allowed origin.
  abbrev pub IsAllowedRequest : Request H → Type 0
  IsAllowedRequest r =
      IsAllowedRequestMethod r
      × All IsAllowedValue (header_all r (H.known access_control_request_headers))

  check_method_cases :
      (r : Request H)
      → ((check_method cors r ≡ ok tt) × IsAllowedRequest r)
        ⊎ ((n : ℕ) × (check_method cors r ≡ err n) × (n ≢ 204) × (¬ IsAllowedRequest r))
  unfolding check_method
  check_method_cases r = elim (Option-cases (header r (H.known access_control_request_method))) [
    | inl e ↦ inr (400, rw (check_method, e), λ h. omega (arith, h), λ h. absurd (cc (e, h.0.1)))
    | inr (value, e) ↦ elim (Bool-cases (any (λ m. H.value_eq value (H.as_str m)) cors.methods)) [
      | inl f ↦
          elim (check_headers-Decides (header_all r (H.known access_control_request_headers))) [
            | inl (g, h) ↦
                inl (rw (check_method, e, f, g), ((value, e, Exists-of_any _ cors.methods f), h))
            | inr (g, n) ↦ inr (403, rw (check_method, e, f, g), λ h. omega (arith, h), λ h. n h.1)
          ]
      | inr f ↦ inr (
        403,
        rw (check_method, e, f),
        λ h. omega (arith, h),
        λ h. absurd (cc (f, listed_method r value e h.0)),
      )
    ]
  ]

  refused :
      (r : Request H) (value : H.HeaderValue) (n : ℕ)
      → Response.status (preflight cors r value) ≡ n
      → n ≢ 204
      → (¬ (IsAllowedOrigin cors value × IsAllowedRequest r))
      → (Response.status (preflight cors r value) ≡ 204)
        ↔ (IsAllowedOrigin cors value × IsAllowedRequest r)
  refused r value n e k m = (λ h. absurd (k (sym e ∙ h)), λ h. absurd (m h))

  passed :
      (r : Request H) (value : H.HeaderValue)
      → IsAllowedOrigin cors value
      → Response.status (preflight cors r value) ≡ status_of (check_method cors r)
      → (Response.status (preflight cors r value) ≡ 204)
        ↔ (IsAllowedOrigin cors value × IsAllowedRequest r)
  passed r value a e = elim (check_method_cases r) [
    | inl (f, h) ↦ (λ k. (a, h), λ k. e ∙ ap status_of f)
    | inr (n, f, g, m) ↦ refused r value n (e ∙ ap status_of f) g (λ h. m h.1)
  ]

  -- The response to a preflight request has the status 204 if and only if its origin is allowed, it
  -- names one method, which is configured, and each value of `Access-Control-Request-Headers` is a
  -- text whose pieces between commas and whose words are all names of allowed headers.
  pub preflight_iff :
      (r : Request H) (value : H.HeaderValue)
      → (Response.status (preflight cors r value) ≡ 204)
        ↔ (IsAllowedOrigin cors value × IsAllowedRequest r)
  unfolding preflight preflight_impl
  preflight_iff r value = elim (origin_cases cors value) [
    | inl (c, e) ↦ passed r value (inl e) (rw (preflight, preflight_impl, c))
    | inr (inl (c, h, e)) ↦ passed r value h (rw (preflight, preflight_impl, c))
    | inr (inr (c, n)) ↦
        refused r value 403 (rw (preflight, preflight_impl, c)) (λ h. omega (arith, h)) (λ h. n h.0)
  ]
