-- ===== src/Body/Limit/Meaning.antt =====
-- What `content_length_limit` comes to.
use mathlib.Core.Option
use mathlib.Core.Path.{subst}
use myth.Prelude.{
  ℕ, ◌<◌, ◌^◌, ◌≡◌, refl, ap, ◌∙◌, Option, none, some, ◌>>=◌, [], ◌∷◌, leb, Bool-cases, inl, inr,
  if◌then◌else◌,
}
use myth.Text.Numbers.{parse_usize, decimal, parse_usize-decimal}
use myth.Http.{Http}
use myth.Http
use myth.Request.{Request, RequestState, header}
use myth.Errors.{box, content_length_error}
use myth.Outcome.{Outcome, success, error, from_result, map_request_outcome}
use myth.Tuple.{from_inner, append, append_one}
use myth.Tuple.RoundTrip.{tuple_append}
use myth.Filter.{Runs}
use myth.Filter.And.{and_filter}
use myth.Filter.Run.{came_to, and_success, untuple_handle_success, result_in}
use myth.Header.{value_optional}
use myth.Header.Meaning.{value_optional-Runs}
use myth.Basic.{cloning}
use myth.Basic.Meaning.{cloning-Runs}
use myth.Body.Limit.{check_length, content_length_limit}

-- The header is not there, or it is the decimal of a number of 64 bits.
abbrev pub Declares : (H : Http) → Option H.HeaderValue → Option ℕ → Type 0
Declares H none none = Unit
Declares H (some value) (some n) = (H.to_str value ≡ some (decimal n)) × (n < 2 ^ 64)
Declares H _ _ = ⊥

module _ {H : Http} where
  limit_checked :
      (r : Request H) (st : RequestState H) (limit : ℕ)
      → Runs (content_length_limit limit) r st tt (
          Option.map
            (result_in st)
            (check_length (header r (H.known Http.content_length), (limit, tt))))
  unfolding content_length_limit map_request_outcome append from_result append_one
  limit_checked r st limit =
      let length_value = header r (H.known Http.content_length) in
      let both = tuple_append (Option H.HeaderValue ∷ []) (ℕ ∷ []) in
      let inner = and_filter (value_optional (H.known Http.content_length)) (cloning limit) both in
      untuple_handle_success inner check_length r st st tt (length_value, (limit, tt))
        (and_success r st st (value_optional (H.known Http.content_length)) (cloning limit) both tt
          (from_inner length_value) _ (value_optional-Runs r st (H.known Http.content_length))
          (cloning-Runs r st limit))

  abbrev pub within : ℕ → Option ℕ → Outcome H (Unit {0}) (Unit {0})
  within limit none = success tt
  within limit (some n) = if leb n limit then success tt else error (box content_length_error n)

  check_length-within :
      (st : RequestState H) (limit : ℕ) (value : Option H.HeaderValue) (declared : Option ℕ)
      → Declares H value declared
      → Option.map (result_in st) (check_length (value, (limit, tt)))
        ≡ came_to st (within limit declared)
  unfolding check_length
  check_length-within st limit none none h = refl
  check_length-within st limit none (some n) h = absurd h
  check_length-within st limit (some value) none h = absurd h
  check_length-within st limit (some value) (some n) h =
      let read : (H.to_str value >>= parse_usize) ≡ some n =
        ap (λ o. o >>= parse_usize) h.0 ∙ parse_usize-decimal n h.1 in
      elim (Bool-cases (leb n limit)) [ inl e ↦ rw (read, e) refl | inr e ↦ rw (read, e) refl ]

  -- A request without the header `Content-Length` passes the limit. One whose header is the decimal of a
  -- number of 64 bits passes it just when the number is at most the limit, and else ends in the error
  -- that has the number. In either case the state stays as it was.
  pub content_length_limit_lem :
      (r : Request H) (st : RequestState H) (limit : ℕ) (declared : Option ℕ)
      → Declares H (header r (H.known Http.content_length)) declared
      → Runs (content_length_limit limit) r st tt (came_to st (within limit declared))
  content_length_limit_lem r st limit declared h =
      subst (Runs (content_length_limit limit) r st tt)
        (check_length-within st limit (header r (H.known Http.content_length)) declared h)
        (limit_checked r st limit)
