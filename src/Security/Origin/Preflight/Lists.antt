-- ===== src/Security/Origin/Preflight/Lists.antt =====
-- Preflight requests that ask for several headers in one value.
use myth.Prelude.{◌≡◌, ◌≢◌, inl, inr, true, false, List, [], ◌∷◌, refl, any, All, Exists, some}
use mathlib.Core.Path.{subst}
use myth.Text.{Str, contains, is_whitespace, split_whitespace}
use myth.Text.Words.{split_whitespace-Holds}
use myth.Http.{Http, access_control_request_headers}
use myth.Request.{Request, header_all}
use myth.Response.{Response}
use myth.Security.Origin.{CorsData}
use myth.Security.Origin.Preflight.{header_allowed, preflight}
use myth.Security.Origin.Preflight.Decision.{IsAllowedText, IsAllowedValue, preflight_iff}

comma_is_whitespace : is_whitespace b',' ≡ false
unfolding is_whitespace
comma_is_whitespace = refl

-- What holds of all the elements holds of one that is as said.
All-Exists :
    {A : Type 0} {C : Type 0} (P Q : A → Type 0) (xs : List A)
    → ((x : A) → P x → Q x → C)
    → All P xs
    → Exists Q xs
    → C
All-Exists P Q [] f h k = elim k [ ]
All-Exists P Q (x ∷ xs) f h (inl k) = f x h.0 k
All-Exists P Q (x ∷ xs) f h (inr k) = All-Exists P Q xs f h.1 k

module _ {H : Http} (cors : CorsData H) where
  comma_not_allowed :
      (names : List H.HeaderName) (w : Str)
      → contains b',' w ≡ true
      → any (λ h. H.name_eq h w) names ≡ false
  comma_not_allowed [] w h = refl
  comma_not_allowed (n ∷ names) w h = rw (H.name_eq-comma n w h, comma_not_allowed names w h)

  list_not_allowed : (text : Str) → contains b',' text ≡ true → ¬ IsAllowedText cors text
  list_not_allowed text h a =
      All-Exists (λ w. header_allowed cors w ≡ true) (λ w. contains b',' w ≡ true)
        (split_whitespace text) (λ w p q. absurd (cc (p, comma_not_allowed cors.allow_headers w q)))
        a.1 (split_whitespace-Holds b',' text comma_is_whitespace h)

  -- A preflight request is never answered with the status 204 when one of its
  -- `Access-Control-Request-Headers` values holds a comma, so when it lists two headers, whatever
  -- headers are configured.
  pub preflight-list :
      (r : Request H) (value : H.HeaderValue)
      → Exists
          (λ v. (text : Str) × (H.to_str v ≡ some text) × (contains b',' text ≡ true))
          (header_all r (H.known access_control_request_headers))
      → Response.status (preflight cors r value) ≢ 204
  preflight-list r value k h =
      All-Exists (IsAllowedValue cors)
        (λ v. (text : Str) × (H.to_str v ≡ some text) × (contains b',' text ≡ true))
        (header_all r (H.known access_control_request_headers))
        (λ v (text, e, a) (other, f, c).
          list_not_allowed other c (subst (IsAllowedText cors) (cc (e, f)) a))
        ((preflight_iff cors r value).0 h).1.1 k
