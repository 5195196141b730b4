-- ===== src/TestRequest/Agree.antt =====
-- A test of a filter sees what a client of a service with that filter gets.
use mathlib.Core.Option.{some-injective}
use myth.Prelude.{ℕ, ◌≡◌, sym, ap, ◌∙◌, Option, none, some, Option-cases, List, inl, inr}
use myth.Http.{Http}
use myth.Response.{Response}
use myth.Errors.Answer.{Custom}
use myth.Outcome.{Outcome, success, error, forward}
use myth.Future.{Completes}
use myth.Future.Sequence.{continue-Completes}
use myth.Tuple.{One, into_inner}
use myth.Filter.{Filter}
use myth.Service.{HyperRequest, from_hyper, outcome_response, handle_requests, poll_response}
use myth.Service.Meaning.{service-Completes}
use myth.TestRequest.{
  RequestBuilder, into_args, match_outcome, checks_response, test_start, test_poll,
}

-- The request that a client sends.
abbrev pub sent : {H : Http} → RequestBuilder H (Unit {0}) → HyperRequest H
sent self = record {
  method = self.method;
  uri = self.uri;
  version = self.version;
  headers = self.headers;
  on_upgrade = none;
  body = self.body;
}

module _ {H : Http} {R : Type 0} (own : Custom H) (into_response : R → Option (Response H))
    (to_bytes : H.Body → Option (List ℕ)) (F : Filter H (Unit {0}) (One R)) where
  -- A response is what the test saw.
  abbrev pub IsSeen : ℕ × H.HeaderMap × List ℕ → Response H → Type 0
  IsSeen (status, headers, bytes) response =
      (response.status ≡ status)
      × (response.headers ≡ headers)
      × (to_bytes response.body ≡ some bytes)

  outcome-IsSeen :
      (x : Outcome H (Unit {0}) (One R)) (seen : ℕ × H.HeaderMap × List ℕ)
      → checks_response to_bytes into_response x ≡ some seen
      → (response : Response H) × (outcome_response own into_response x ≡ some response)
        × IsSeen seen response
  unfolding checks_response match_outcome outcome_response
  outcome-IsSeen (success s) seen e = elim (Option-cases (into_response (into_inner s))) [
    | inl n ↦ absurd (cc (rw n at e))
    | inr (response, made) ↦ elim (Option-cases (to_bytes response.body)) [
      | inl n ↦ absurd (cc (rw (made, n) at e))
      | inr (bytes, t) ↦
          let same : (response.status, response.headers, bytes) ≡ seen =
            some-injective _ _ (rw (made, t) at e) in
          (
            response,
            made,
            (ap (λ (a, b, c). a) same, ap (λ (a, b, c). b) same, t ∙ ap (λ (a, b, c). some c) same),
          )
    ]
  ]
  outcome-IsSeen (error x) seen e = absurd (cc (e))
  outcome-IsSeen (forward c w) seen e = absurd (cc (e))

  -- What `response` of a test shows, a client of a service with the same filter gets for the same
  -- request: if the test is done and shows a status, headers and bytes, then the service's future for
  -- the request is done, without a panic, with a response of that status, those headers and a body of
  -- those bytes.
  pub response-IsSeen :
      (self : RequestBuilder H (Unit {0})) (seen : ℕ × H.HeaderMap × List ℕ)
      → Completes
          (test_poll F (checks_response to_bytes into_response))
          (test_start F (checks_response to_bytes into_response) self)
          (some seen)
      → (response : Response H) × Completes
          (poll_response own into_response F)
          (handle_requests own into_response F (sent self) self.remote_addr)
          (some response)
        × IsSeen seen response
  unfolding test_poll test_start into_args handle_requests from_hyper
  response-IsSeen self seen c =
      let (r, st, input) = into_args self in
      let (x, run, e) =
        (continue-Completes F.poll (λ o. checks_response to_bytes into_response o.outcome)
            (F.execute r st tt) (some seen)).0
          c in
      elim (Option-cases x) [
        | inl n ↦ absurd (cc (rw n at e))
        | inr (y, n) ↦
            let (response, same, is) = outcome-IsSeen y.outcome seen (sym (rw n at e)) in
            (
              response,
              (service-Completes own into_response F r st (some response)).1
                  (some y, rw (← n) run, sym same),
              is,
            )
      ]
