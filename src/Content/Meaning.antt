-- ===== src/Content/Meaning.antt =====
-- What a filter that deserializes the body comes to.
use mathlib.Core.Path.{subst}
use myth.Prelude.{
  ℕ, ◌≡◌, refl, ap, ◌∙◌, Option, none, some, List, [], ◌∷◌, Result, ok, err, map_err, map_ok, ◌⊎◌,
  inl, inr, ◌>>=◌, true, Bool-cases, Option-cases,
}
use myth.Http.{Http}
use myth.Http
use myth.Request.{Request, RequestState, BodyError, header}
use myth.Request.Body.{content, IsCounted, IsEnding}
use myth.Text.{str}
use myth.Errors.{
  BoxedFilterError, ContentError, no_content_type, wrong_content_type, reading, deserializing, box,
  body_error,
}
use myth.Outcome.{
  Outcome, RequestOutcome, success, error, from_result, map_outcome, map_request_outcome,
}
use myth.Tuple.{One, from_inner, into_inner, append, append_one, Append}
use myth.Tuple.RoundTrip.{tuple_append}
use myth.Filter.{Runs}
use myth.Filter.Or.{reset}
use myth.Filter.And.{and_filter}
use myth.Filter.Run.{
  came_to, handle_success, handle_error, and_success, and_error, recover_success, recover_error,
  untuple_handle_success, result_in,
}
use myth.Header.{content_type}
use myth.Header.Meaning.{content_type_of, content_type-Runs}
use myth.Body.Buffer.{BytesBuf}
use myth.Body.Buffer.Meaning.{IsWhole, unread}
use myth.Body.Take.{all}
use myth.Body.Take.Meaning.{Took, all-Runs}
use myth.Content.{Format, rejected, check_type, typed, readable, request}

-- The deserializer looks at nothing but the bytes that it reads.
abbrev pub ReadsBytes : {H : Http} {T E : Type 0} → Format H T E → (List ℕ → Result T E) → Type 0
ReadsBytes format from_bytes =
    (buf : BytesBuf) → IsWhole buf → format.from_reader buf ≡ from_bytes (unread buf)

module _ {H : Http} {T E : Type 0} (format : Format H T E) where
  typed-Runs :
      (r : Request H) (st : RequestState H)
      → Runs (typed format) r st tt (some (result_in st (check_type format (content_type_of r))))
  typed-Runs r st =
      untuple_handle_success content_type (λ args. some (check_type format args)) r st st tt
        (content_type_of r) (content_type-Runs r st)

  -- What the filter comes to on a body of these bytes, or on one that fails.
  abbrev pub Delivers :
      (List ℕ → Result T E) → Option (List ℕ) → Outcome H (Unit {0}) (One T) → Type 0
  Delivers from_bytes none o = (e : BodyError H) × (o ≡ error (format.boxed (reading e)))
  Delivers from_bytes (some bytes) o =
      o
      ≡ from_result
          (map_ok from_inner (map_err (λ e. format.boxed (deserializing e)) (from_bytes bytes)))

  -- From what taking the body comes to, to what the whole comes to where the content type is accepted.
  module _ (r : Request H) (st st' : RequestState H) (u : Unit {0})
      (accepted : Runs (typed format) r st tt (came_to st (success u))) where
    abbrev both : Append (Unit {0}) (One BytesBuf)
    both = tuple_append [] (BytesBuf ∷ [])

    abbrev parse : One BytesBuf → Option (Result T (BoxedFilterError H))
    parse body =
        some (map_err (λ e. format.boxed (deserializing e)) (format.from_reader (into_inner body)))

    abbrev ending : RequestState H
    ending = reset st.current_path_index st'

    request_reading :
        (e : BodyError H)
        → Runs all r st tt (came_to st' (error (box body_error e)))
        → Runs (request format) r st tt (came_to ending (error (format.boxed (reading e))))
    unfolding request map_request_outcome map_outcome
    request_reading e c =
        handle_error r st ending (and_filter (typed format) (readable format) both) parse tt
          (format.boxed (reading e))
          (and_success r st st (typed format) (readable format) both tt u _ accepted (
            recover_error r st st' all body_error
              (λ e. some (err (format.boxed (reading (into_inner e))))) tt e c))

    request_read :
        (buf : BytesBuf)
        → Runs all r st tt (came_to st' (success (from_inner buf)))
        → Runs (request format) r st tt (
            some (record {
              request_state = ending;
              outcome = from_result (
                  map_ok from_inner
                    (map_err (λ e. format.boxed (deserializing e)) (format.from_reader buf)));
            }))
    unfolding request map_request_outcome map_outcome append append_one
    request_read buf c =
        handle_success r st ending (and_filter (typed format) (readable format) both) parse tt
          (from_inner buf)
          (and_success r st st (typed format) (readable format) both tt u _ accepted (
            recover_success r st st' all body_error
              (λ e. some (err (format.boxed (reading (into_inner e))))) tt (from_inner buf) c))

  -- What the filter comes to once the body is read.
  abbrev pub Read :
      (List ℕ → Result T E) → RequestState H → RequestOutcome H (Unit {0}) (One T) → Type 0
  Read from_bytes st x =
      (x.request_state.current_path_index ≡ st.current_path_index)
      × IsCounted x.request_state.body
      × (content x.request_state.body ≡ content st.body)
      × Delivers from_bytes (content st.body) x.outcome

  -- What the filter comes to after the check on the content type.
  abbrev Checked :
      (List ℕ → Result T E)
      → RequestState H
      → Result (Unit {0}) (BoxedFilterError H)
      → RequestOutcome H (Unit {0}) (One T)
      → Type 0
  Checked from_bytes st (err e) x = x ≡ record { request_state = st; outcome = error e }
  Checked from_bytes st (ok u) x = Read from_bytes st x

  -- From what taking the body comes to, to what the whole comes to.
  delivered :
      (from_bytes : List ℕ → Result T E) (r : Request H) (st st' : RequestState H) (u : Unit {0})
      (o : Outcome H (Unit {0}) (One BytesBuf)) (bytes : Option (List ℕ))
      → ReadsBytes format from_bytes
      → Runs (typed format) r st tt (came_to st (success u))
      → Runs all r st tt (came_to st' o)
      → Took bytes o
      → (last : Outcome H (Unit {0}) (One T)) × Runs
          (request format)
          r
          st
          tt
          (came_to (reset st.current_path_index st') last)
        × Delivers from_bytes bytes last
  delivered from_bytes r st st' u o none reads accepted c (e, same) = (
    error (format.boxed (reading e)),
    request_reading r st st' u accepted e (subst (λ y. Runs all r st tt (came_to st' y)) same c),
    (e, refl),
  )
  delivered from_bytes r st st' u o (some bytes) reads accepted c (buf, same, w, e) = (
    _,
    request_read r st st' u accepted buf (subst (λ y. Runs all r st tt (came_to st' y)) same c),
    ap
        (λ result.
          from_result (map_ok from_inner (map_err (λ x. format.boxed (deserializing x)) result)))
        (reads buf w ∙ ap from_bytes e),
  )

  answered :
      (from_bytes : List ℕ → Result T E) (r : Request H) (st : RequestState H)
      (result : Result (Unit {0}) (BoxedFilterError H))
      → ReadsBytes format from_bytes
      → IsCounted st.body
      → IsEnding st.body
      → Runs (typed format) r st tt (some (result_in st result))
      → (x : RequestOutcome H (Unit {0}) (One T)) × Runs (request format) r st tt (some x)
        × Checked from_bytes st result x
  unfolding request
  answered from_bytes r st (err e) reads counted ends c =
      let both = tuple_append [] (BytesBuf ∷ []) in
      (
        _,
        handle_error r st st (and_filter (typed format) (readable format) both)
            (λ body. some (
              map_err (λ x. format.boxed (deserializing x)) (format.from_reader (into_inner body))))
            tt e (and_error r st st (typed format) (readable format) both tt e c),
        refl,
      )
  answered from_bytes r st (ok u) reads counted ends c =
      let (y, run, (i, up, counted', same, took)) = all-Runs r st counted ends in
      let (last, run', d) =
        delivered from_bytes r st y.request_state u y.outcome (content st.body) reads c run took in
      (_, run', (refl, counted', same, d))

  -- The request declares a type `application` with the subtype of the format.
  abbrev pub IsAccepted : Request H → Type 0
  IsAccepted r =
      (mime : H.Mime) × ((header r (H.known Http.content_type) >>= H.to_str >>= H.parse_mime)
        ≡ some mime)
      × (H.type_is mime (str "application") ≡ true)
      × (H.subtype_is mime format.subtype ≡ true)

  -- The error of a request that does not.
  abbrev pub complaint : Option H.HeaderValue → ContentError H E
  complaint none = no_content_type
  complaint (some value) = wrong_content_type value

  abbrev refusal : ContentError H E → Result (Unit {0}) (BoxedFilterError H)
  refusal e = err (format.boxed e)

  rejected-complaint : (value : Option H.HeaderValue) → rejected format value ≡ complaint value
  rejected-complaint none = refl
  rejected-complaint (some value) = refl

  -- The check on the content type accepts, or gives that error.
  check_type_cases :
      (r : Request H)
      → (IsAccepted r × (check_type format (content_type_of r) ≡ ok tt))
        ⊎ ((¬ IsAccepted r)
            × (check_type format (content_type_of r)
                ≡ err (format.boxed (complaint (header r (H.known Http.content_type))))))
  unfolding check_type
  check_type_cases r =
      let value = header r (H.known Http.content_type) in
      let complains = ap refusal (rejected-complaint value) in
      elim (Option-cases (value >>= H.to_str >>= H.parse_mime)) [
        | inl n ↦ inr ((λ (mime, e, t, s). absurd (cc (n, e))), rw n complains)
        | inr (mime, e) ↦ elim (Bool-cases (H.type_is mime (str "application"))) [
          | inr t ↦ inr (
            (λ (mime', e', t', s').
                let same : mime ≡ mime' = cc (e, e') in absurd (cc (same, t, t'))),
            rw (e, t) complains,
          )
          | inl t ↦ elim (Bool-cases (H.subtype_is mime format.subtype)) [
            | inr s ↦ inr (
              (λ (mime', e', t', s').
                  let same : mime ≡ mime' = cc (e, e') in absurd (cc (same, s, s'))),
              rw (e, t, s) complains,
            )
            | inl s ↦ inl ((mime, e, t, s), rw (e, t, s) refl)
          ]
        ]
      ]

  -- What the filter comes to, by the content type of the request.
  abbrev pub Answers :
      (List ℕ → Result T E)
      → Request H
      → RequestState H
      → RequestOutcome H (Unit {0}) (One T)
      → Type 0
  Answers from_bytes r st x =
      (IsAccepted r × Read from_bytes st x)
      ⊎ ((¬ IsAccepted r)
          × (x ≡ record {
            request_state = st;
            outcome = error (format.boxed (complaint (header r (H.known Http.content_type))));
          }))

  -- Run in a state whose body counts its chunks and ends or fails after a finite number of polls, the
  -- filter is done after a finite number of polls. If the request does not declare the content type
  -- `application` with the subtype of the format, it ends in the error that has the header, if there is
  -- one, and the body is not read. Else it ends in the error of reading the body if a part of the body
  -- fails, and if none does, in what the deserializer makes of the bytes of the whole body, however they
  -- were cut into chunks: its value as the success, or its error; the body has the same content
  -- afterwards.
  pub request-Runs :
      (from_bytes : List ℕ → Result T E) (r : Request H) (st : RequestState H)
      → ReadsBytes format from_bytes
      → IsCounted st.body
      → IsEnding st.body
      → (x : RequestOutcome H (Unit {0}) (One T)) × Runs (request format) r st tt (some x)
        × Answers from_bytes r st x
  request-Runs from_bytes r st reads counted ends =
      let (x, run, found) =
        answered from_bytes r st (check_type format (content_type_of r)) reads counted ends
          (typed-Runs r st) in
      elim (check_type_cases r) [
        | inl (accepted, e) ↦
            (x, run, inl (accepted, subst (λ y. Checked from_bytes st y x) e found))
        | inr (refused, e) ↦ (x, run, inr (refused, subst (λ y. Checked from_bytes st y x) e found))
      ]
