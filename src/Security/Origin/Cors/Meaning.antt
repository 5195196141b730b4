-- ===== src/Security/Origin/Cors/Meaning.antt =====
-- What a filter behind origin checking comes to.
use mathlib.Core.Option
use mathlib.Core.Logic.{if_pos, if_neg}
use mathlib.Core.Path.{subst}
use myth.Prelude.{Option, none, some, ◌≡◌, ◌↔◌, sym, ◌≢◌, ◌⊎◌, inl, inr, arith, Option-cases}
use myth.Http.{Http, options, KnownHeader}
use myth.Request.{Request, RequestState, header}
use myth.Response.{Response, Responder}
use myth.Outcome.{success, RequestOutcome}
use myth.Future.{ready, Completes, poll_ready}
use myth.Future.Sequence.{step, map_iff, After-of_Completes, Completes-of_After}
use myth.Tuple.{One, from_inner}
use myth.Filter.{Filter, Runs}
use myth.Security.Origin.{CorsData}
use myth.Security.Origin.Preflight.{preflight}
use myth.Security.Origin.Cors.Permission.{IsPermitted, headers_for, method_cases, origin_cases}
use myth.Security.Origin.Cors.{
  vary_origin, forbidden, Headers, apply_headers, CorsFuture, answered, applying, varying,
  respond_outcome, answer, proceed, execute_checked, execute_cors, poll_cors, cors_filter,
}

module _ {H : Http} {I R : Type 0} (responder : Responder H R) (cors : CorsData H)
    (T : Filter H I (One R)) where
  abbrev with_headers :
      Headers H → RequestOutcome H I (One R) → RequestOutcome H I (One (Response H))
  with_headers h = respond_outcome (apply_headers responder h)

  abbrev with_vary : RequestOutcome H I (One R) → RequestOutcome H I (One (Response H))
  with_vary = respond_outcome (λ x. vary_origin (responder.into_response x))

  -- What a state of the future comes to.
  abbrev Finishes :
      CorsFuture H T.Future I → Option (RequestOutcome H I (One (Response H))) → Type 0
  Finishes (answered x) o = o ≡ x
  Finishes (applying f h) o =
      (o₁ : Option (RequestOutcome H I (One R))) × Completes T.poll f o₁
      × (o ≡ Option.map (with_headers h) o₁)
  Finishes (varying f) o =
      (o₁ : Option (RequestOutcome H I (One R))) × Completes T.poll f o₁
      × (o ≡ Option.map with_vary o₁)

  poll-applying :
      (h : Headers H) (f : T.Future)
      → poll_cors responder cors T (applying f h)
        ≡ step (λ g. applying g h) (λ o. ready (with_headers h o)) (T.poll f)
  unfolding poll_cors
  poll-applying h f = ground arith

  poll-varying :
      (f : T.Future)
      → poll_cors responder cors T (varying f) ≡ step varying (λ o. ready (with_vary o)) (T.poll f)
  unfolding poll_cors
  poll-varying f = ground arith

  Finishes-iff :
      (s : CorsFuture H T.Future I) (o : Option (RequestOutcome H I (One (Response H))))
      → Completes (poll_cors responder cors T) s o ↔ Finishes s o
  unfolding poll_cors poll_ready
  Finishes-iff (answered none) o = (
    λ c. After-of_Completes (poll_cors responder cors T) c,
    λ e. Completes-of_After (poll_cors responder cors T) (answered none) o e,
  )
  Finishes-iff (answered (some x)) o = (
    λ c. After-of_Completes (poll_cors responder cors T) c,
    λ e. Completes-of_After (poll_cors responder cors T) (answered (some x)) o e,
  )
  Finishes-iff (applying f h) o =
      map_iff T.poll (poll_cors responder cors T) (λ g. applying g h) (with_headers h)
        (poll-applying h) f o
  Finishes-iff (varying f) o =
      map_iff T.poll (poll_cors responder cors T) varying with_vary poll-varying f o

  abbrev answer_of : RequestState H → Response H → RequestOutcome H I (One (Response H))
  answer_of st x = record { request_state = st; outcome = success (from_inner x) }

  -- The response to a request with an `Origin` header that is no preflight request.
  abbrev Checked :
      Request H
      → RequestState H
      → I
      → H.HeaderValue
      → Option (RequestOutcome H I (One (Response H)))
      → Type 0
  Checked r st input value o =
      ((¬ IsPermitted cors r value) × (o ≡ Option.map (answer_of st) forbidden))
      ⊎ (IsPermitted cors r value
          × ((o₁ : Option (RequestOutcome H I (One R))) × Runs T r st input o₁
              × (o ≡ Option.map (with_headers (headers_for cors value)) o₁)))

  moved :
      (o : Option (RequestOutcome H I (One (Response H)))) (s t : CorsFuture H T.Future I)
      → s ≡ t
      → Finishes s o
      → Finishes t o
  moved o s t e h = subst (λ x. Finishes x o) e h

  -- The future of a request that is no preflight request, by whether it is permitted.
  execute_checked_cases :
      (r : Request H) (st : RequestState H) (input : I) (value : H.HeaderValue)
      → (IsPermitted cors r value
          × (execute_checked responder cors T r st input value
              ≡ applying (T.execute r st input) (headers_for cors value)))
        ⊎ ((¬ IsPermitted cors r value)
            × (execute_checked responder cors T r st input value
                ≡ answered (Option.map (answer_of st) forbidden)))
  unfolding execute_checked proceed answer
  execute_checked_cases r st input value = elim (origin_cases cors value) [
    | inl (c, e) ↦ elim (method_cases cors r) [
      | inl (m, p) ↦ inl ((inl e, p), rw (execute_checked, proceed, c, m, e))
      | inr (m, n) ↦ inr (λ p. n p.1, rw (execute_checked, proceed, answer, c, m))
    ]
    | inr (inl (c, a, (origins, e))) ↦ elim (method_cases cors r) [
      | inl (m, p) ↦ inl ((a, p), rw (execute_checked, proceed, c, m, e))
      | inr (m, n) ↦ inr (λ p. n p.1, rw (execute_checked, proceed, answer, c, m))
    ]
    | inr (inr (c, n)) ↦ inr (λ p. n p.0, rw (execute_checked, answer, c))
  ]

  Checked-iff :
      (r : Request H) (st : RequestState H) (input : I) (value : H.HeaderValue)
      (o : Option (RequestOutcome H I (One (Response H))))
      → Finishes (execute_checked responder cors T r st input value) o ↔ Checked r st input value o
  Checked-iff r st input value o = elim (execute_checked_cases r st input value) [
    | inl (p, e) ↦ (
      λ h. inr (p, moved o _ (applying (T.execute r st input) (headers_for cors value)) e h),
      λ k. elim k [
        | inl (n, _) ↦ absurd (n p)
        | inr (_, x) ↦
            moved o (applying (T.execute r st input) (headers_for cors value)) _ (sym e) x
      ],
    )
    | inr (n, e) ↦ (
      λ h. inl (n, moved o _ (answered (Option.map (answer_of st) forbidden)) e h),
      λ k. elim k [
        | inl (_, x) ↦ moved o (answered (Option.map (answer_of st) forbidden)) _ (sym e) x
        | inr (p, _) ↦ absurd (n p)
      ],
    )
  ]

  -- What running the filter behind origin checking comes to.
  abbrev pub CorsSpec :
      Request H → RequestState H → I → Option (RequestOutcome H I (One (Response H))) → Type 0
  CorsSpec r st input o =
      ((header r (H.known KnownHeader.origin) ≡ none)
        × ((o₁ : Option (RequestOutcome H I (One R))) × Runs T r st input o₁
            × (o ≡ Option.map with_vary o₁)))
      ⊎ ((value : H.HeaderValue) × (header r (H.known KnownHeader.origin) ≡ some value)
          × (((r.method ≡ H.standard options) × (o ≡ some (answer_of st (preflight cors r value))))
              ⊎ ((r.method ≢ H.standard options) × Checked r st input value o)))

  -- The future of a request, by the case that it falls in.
  CorsSpec-iff :
      (r : Request H) (st : RequestState H) (input : I)
      (o : Option (RequestOutcome H I (One (Response H))))
      → Finishes (execute_cors responder cors T r st input) o ↔ CorsSpec r st input o
  unfolding execute_cors answer
  CorsSpec-iff r st input o = elim (Option-cases (header r (H.known KnownHeader.origin))) [
    | inl e ↦
        let same : execute_cors responder cors T r st input ≡ varying (T.execute r st input) =
          rw (execute_cors, e) in
        (
          λ h. inl (e, moved o _ (varying (T.execute r st input)) same h),
          λ k. elim k [
            | inl (_, x) ↦ moved o (varying (T.execute r st input)) _ (sym same) x
            | inr (value, f, _) ↦ absurd (cc (e, f))
          ],
        )
    | inr (value, e) ↦ elim (H.Method-discrete r.method (H.standard options)) [
      | yes m ↦
          let done = answered (some (answer_of st (preflight cors r value))) in
          let same : execute_cors responder cors T r st input ≡ done = rw (
            execute_cors,
            e,
            if_pos (H.Method-discrete r.method (H.standard options)) m _ _,
            answer,
          ) in
          (
            λ h. inr (value, e, inl (m, moved o _ done same h)),
            λ k. elim k [
              | inl (f, _) ↦ absurd (cc (e, f))
              | inr (value', f, inl (_, x)) ↦
                  moved o done _ (sym same)
                    (subst (λ v. o ≡ some (answer_of st (preflight cors r v))) (cc (e, f)) x)
              | inr (value', f, inr (n, _)) ↦ absurd (n m)
            ],
          )
      | no n ↦
          let same : execute_cors responder cors T r st input
              ≡ execute_checked responder cors T r st input value =
            rw (execute_cors, e, if_neg (H.Method-discrete r.method (H.standard options)) n _ _) in
          (
            λ h. inr (
              value,
              e,
              inr (
                n,
                (Checked-iff r st input value o).0
                    (moved o _ (execute_checked responder cors T r st input value) same h),
              ),
            ),
            λ k. elim k [
              | inl (f, _) ↦ absurd (cc (e, f))
              | inr (value', f, inl (m, _)) ↦ absurd (n m)
              | inr (value', f, inr (_, x)) ↦
                  moved o (execute_checked responder cors T r st input value) _ (sym same) (
                    (Checked-iff r st input value o).1
                      (subst (λ v. Checked r st input v o) (cc (e, f)) x))
            ],
          )
    ]
  ]

  -- What a filter behind origin checking comes to is exactly one of four things. Without an `Origin`
  -- header, it is what the inner filter comes to, with `Vary: Origin` added to its response. With one
  -- and the method OPTIONS, it is the response to a preflight request. With one and another method, if
  -- the origin and the method are configured, it is what the inner filter comes to, with the headers of
  -- `ApplyHeaders` set in its response, and otherwise the response of `forbidden!`, or a panic if
  -- there is none; then the inner filter is not run.
  pub cors-Runs :
      (r : Request H) (st : RequestState H) (input : I)
      (o : Option (RequestOutcome H I (One (Response H))))
      → Runs (cors_filter responder cors T) r st input o ↔ CorsSpec r st input o
  unfolding cors_filter
  cors-Runs r st input o =
      let (to, from) = Finishes-iff (execute_cors responder cors T r st input) o in
      let (to', from') = CorsSpec-iff r st input o in (λ c. to' (to c), λ h. from (from' h))
