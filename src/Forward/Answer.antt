-- ===== src/Forward/Answer.antt =====
-- src/forward.rs: the response for a request that no filter matched.
use mathlib.Core.Logic.{if_pos}
use mathlib.Core.List.{head?}
use myth.Prelude.{◌≡◌, ◌≢◌, ◌⊎◌, inl, inr, refl, ap, ◌∙◌, Option, some, ◌>>=◌, List, [], map}
use myth.Text.{Str}
use myth.Http.{Http, StandardMethod, allow, get_header, standard_name}
use myth.Http
use myth.Response.{Response, response_responder, default_response, with_header}
use myth.Response.Defaults.{default_response-code}
use myth.Forward.{AttemptedMethods, Forwarding, not_found, method_not_allowed, allow_text}
use myth.Forward.Tried.{Tried, combined, asked, Tells, combined-Tells}
use myth.Forward.Allow.{comma_join, is_in, select, all_methods, allow_text_lem, allow_text-visible}

-- `into_header_value`; `none` is its panic.
unfoldable pub into_header_value : (H : Http) → AttemptedMethods → Option H.HeaderValue
unfolding allow_text
into_header_value H self = H.try_from (allow_text self)

-- `Responder for Forwarding`
unfoldable pub forwarding_response : {H : Http} → Forwarding → Option (Response H)
unfolding default_response into_header_value with_header
forwarding_response not_found = default_response (Http.code Http.not_found)
forwarding_response {H} (method_not_allowed attempted) = do
  response ← default_response (Http.code Http.method_not_allowed)
  value ← into_header_value H attempted
  some (with_header response_responder (H.known allow) value response)

module _ (H : Http) where
  -- The response to a request whose method is not allowed names the methods that are.
  abbrev pub Names : Option (Response H) → Str → Type 0
  Names response text =
      (r : Response H) × (response ≡ some r)
      × (r.status ≡ 405)
      × ((get_header H (H.known allow) r.headers >>= H.to_str) ≡ some text)

  with_header-get :
      (k : H.HeaderName) (v : H.HeaderValue) (r : Response H)
      → get_header H k (with_header response_responder k v r).headers ≡ some v
  unfolding with_header
  with_header-get k v r =
      ap head? (H.get_all-insert k k v r.headers ∙ if_pos (H.HeaderName-discrete k k) refl _ _)

  pub forwarding_response-Names :
      (self : AttemptedMethods)
      → Names (forwarding_response (method_not_allowed self)) (allow_text self)
  unfolding forwarding_response with_header into_header_value
  forwarding_response-Names self =
      let (response, e, s) = default_response-code H Http.method_not_allowed in
      let (value, t, u) = H.try_from-visible (allow_text self) (allow_text-visible self) in
      (
        with_header response_responder (H.known allow) value response,
        rw (e, t) refl,
        s,
        ap (λ o. o >>= H.to_str) (with_header-get (H.known allow) value response) ∙ u,
      )

  -- The response to a forward that tells of these methods.
  abbrev pub Answers : Option (Response H) → List StandardMethod → Type 0
  Answers response ms =
      ((ms ≡ []) × ((r : Response H) × (response ≡ some r) × (r.status ≡ 404)))
      ⊎ ((ms ≢ [])
          × Names response (comma_join (map standard_name (select (λ m. is_in m ms) all_methods))))

  told :
      (w : Forwarding) (ms : List StandardMethod) → Tells w ms → Answers (forwarding_response w) ms
  unfolding forwarding_response
  told not_found ms h = inl (h, default_response-code H Http.not_found)
  told (method_not_allowed self) ms (n, h) =
      let (r, e, s, t) = forwarding_response-Names self in
      inr (n, (r, e, s, t ∙ ap some (allow_text_lem self ms h)))

  -- The forwards of filters that were tried, each as not found or for the one method that it asks for,
  -- combined in whatever way `or` nests the filters, are answered without a panic: with the status 404 if
  -- no filter asked for a method, and else with the status 405 and a header `Allow` that reads as the
  -- names of just the methods that were asked for, in the order of the macro `all_methods` and each
  -- once, with a comma and a space between any two.
  pub forwarding_response_lem :
      (tried : Tried) → Answers (forwarding_response (combined tried)) (asked tried)
  forwarding_response_lem tried = told (combined tried) (asked tried) (combined-Tells tried)
