-- ===== src/Security/Origin/Cors/Permission.antt =====
-- src/security/origin.rs: which requests a filter behind origin checking lets through.
use mathlib.Core.Logic.{if_pos, if_neg}
use mathlib.Core.Path.{subst}
use myth.Prelude.{
  true, false, ◌||◌, none, some, List, [], ◌∷◌, ◌≡◌, ◌⊎◌, inl, inr, sym, ap, ◌∙◌, arith,
  Option-cases, Bool-cases, any, Exists, Exists-of_any, any_of_Exists,
}
use myth.Text.{Str, str}
use myth.Http.{Http}
use myth.Request.{Request}
use myth.Security.Origin.{CorsData, contains}
use myth.Security.Origin.Preflight.{allowed, disallowed, any_allowed, check_origin}
use myth.Security.Origin.Cors.{Headers}

-- `Vec::contains` finds the elements of the list.
module _ {A : Type 0} (same : Discrete A) (x : A) where
  pub Exists-of_contains : (xs : List A) → contains same x xs ≡ true → Exists (λ y. y ≡ x) xs
  Exists-of_contains [] h = cc
  Exists-of_contains (y ∷ ys) h = elim (same y x) [
    | yes e ↦ inl e
    | no n ↦ inr (
        Exists-of_contains ys
          (sym (ap (λ b. b || contains same x ys) (if_neg (same y x) n true false)) ∙ h))
  ]

  pub contains_of_Exists : (xs : List A) → Exists (λ y. y ≡ x) xs → contains same x xs ≡ true
  contains_of_Exists [] h = elim h [ ]
  contains_of_Exists (y ∷ ys) (inl e) = rw (if_pos (same y x) e true false)
  contains_of_Exists (y ∷ ys) (inr h) = ground (arith, contains_of_Exists ys h)

module _ {H : Http} where
  -- Any origin may ask, or the `Origin` header is one of the listed origins.
  abbrev pub IsAllowedOrigin : CorsData H → H.HeaderValue → Type 0
  IsAllowedOrigin cors value =
      (cors.origins ≡ none)
      ⊎ ((origins : List Str) × (cors.origins ≡ some origins)
          × Exists (λ o. H.value_eq value o ≡ true) origins)

  abbrev pub IsAllowedMethod : CorsData H → Request H → Type 0
  IsAllowedMethod cors r = Exists (λ m. m ≡ r.method) cors.methods

  abbrev pub IsPermitted : CorsData H → Request H → H.HeaderValue → Type 0
  IsPermitted cors r value = IsAllowedOrigin cors value × IsAllowedMethod cors r

  -- What is said of the origin in the response: `*` if any origin may ask, and otherwise the origin
  -- that asked, with `Vary`.
  abbrev pub headers_for : CorsData H → H.HeaderValue → Headers H
  headers_for cors value = record {
    origin = elim cors.origins [ none ↦ H.from_static (str "*") | some origins ↦ value ];
    expose_headers = cors.expose_headers;
    credentials = cors.credentials;
    vary = elim cors.origins [ none ↦ false | some origins ↦ true ];
  }

module _ {H : Http} (cors : CorsData H) where
  pub method_cases :
      (r : Request H)
      → ((contains H.Method-discrete r.method cors.methods ≡ true) × IsAllowedMethod cors r)
        ⊎ ((contains H.Method-discrete r.method cors.methods ≡ false) × (¬ IsAllowedMethod cors r))
  method_cases r = elim (Bool-cases (contains H.Method-discrete r.method cors.methods)) [
    | inl e ↦ inl (e, Exists-of_contains H.Method-discrete r.method cors.methods e)
    | inr e ↦
        inr (e, λ p. absurd (cc (e, contains_of_Exists H.Method-discrete r.method cors.methods p)))
  ]

  any_of_IsAllowedOrigin :
      (value : H.HeaderValue) (origins : List Str)
      → cors.origins ≡ some origins
      → IsAllowedOrigin cors value
      → any (λ o. H.value_eq value o) origins ≡ true
  any_of_IsAllowedOrigin value origins e (inl n) = absurd (cc (e, n))
  any_of_IsAllowedOrigin value origins e (inr (others, f, x)) =
      any_of_Exists (λ o. H.value_eq value o) origins
        (subst (λ l. Exists (λ o. H.value_eq value o ≡ true) l) (cc (e, f)) x)

  pub origin_cases :
      (value : H.HeaderValue)
      → ((check_origin cors value ≡ any_allowed) × (cors.origins ≡ none))
        ⊎ ((check_origin cors value ≡ allowed)
            × IsAllowedOrigin cors value
            × ((origins : List Str) × (cors.origins ≡ some origins)))
        ⊎ ((check_origin cors value ≡ disallowed) × (¬ IsAllowedOrigin cors value))
  unfolding check_origin
  origin_cases value = elim (Option-cases cors.origins) [
    | inl e ↦ inl (rw e, e)
    | inr (origins, e) ↦ elim (Bool-cases (any (λ o. H.value_eq value o) origins)) [
      | inl f ↦ inr (
          inl (
            rw (e, f),
            inr (origins, e, Exists-of_any (λ o. H.value_eq value o) origins f),
            (origins, e),
          ))
      | inr f ↦
          inr (inr (rw (e, f), λ p. absurd (cc (f, any_of_IsAllowedOrigin value origins e p))))
    ]
  ]
