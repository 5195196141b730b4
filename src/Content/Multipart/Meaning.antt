-- ===== src/Content/Multipart/Meaning.antt =====
-- What the filter for a body of several parts comes to.
use mathlib.Core.Path.{subst}
use myth.Prelude.{
  ℕ, ◌≡◌, refl, Option, none, some, ◌>>=◌, List, [], ◌∷◌, Result, ok, err, ap, ◌∙◌, ◌⊎◌, inl, inr,
  true, Bool-cases, Option-cases,
}
use myth.Text.{Str, str}
use myth.Http.{Http}
use myth.Http
use myth.Request.{Request, RequestState, BodyError, header}
use myth.Request.Body.{content, IsCounted, IsEnding}
use myth.Errors.{
  BoxedFilterError, MultipartError, no_content_type, wrong_content_type, reading, box, body_error,
  multipart_error,
}
use myth.Outcome.{
  Outcome, RequestOutcome, success, error, from_result, map_outcome, map_request_outcome,
}
use myth.Tuple.{Tuple, One, from_inner, into_inner, append, append_one, Append}
use myth.Tuple.RoundTrip.{tuple_append}
use myth.Filter.{Runs}
use myth.Filter.Or.{reset}
use myth.Filter.And.{and_filter}
use myth.Filter.Handle.Meaning.{handled}
use myth.Filter.Run.{
  came_to, handle_success, handle_error, and_success, and_error, recover_success, recover_error,
}
use myth.Header.{content_type}
use myth.Header.Meaning.{content_type_of, content_type-Runs}
use myth.Body.Buffer.{BytesBuf}
use myth.Body.Buffer.Meaning.{IsWhole, unread}
use myth.Body.Take.{all}
use myth.Body.Take.Meaning.{Took, all-Runs}
use myth.Content.Multipart.{
  Parser, rejected, boundary_of, given, find_boundary, bounded, readable, data_of, multipart,
}

module _ {H : Http} (P : Parser H) where
  -- The boundary that the content type of the request declares, if it is `multipart/form-data`.
  abbrev declared : Request H → Option Str
  declared r = (content_type_of r).0 >>= boundary_of P

  abbrev both : Append (One Str) (One BytesBuf)
  both = tuple_append (Str ∷ []) (BytesBuf ∷ [])

  abbrev parse : Tuple (Str ∷ BytesBuf ∷ []) → Option (Result P.Multipart (BoxedFilterError H))
  parse args = some (ok (data_of P args))

  -- What the filter comes to on a body of these bytes, or on one that fails.
  abbrev pub Delivers : Str → Option (List ℕ) → Outcome H (Unit {0}) (One P.Multipart) → Type 0
  Delivers boundary none o = (e : BodyError H) × (o ≡ error (box multipart_error (reading e)))
  Delivers boundary (some bytes) o =
      (buf : BytesBuf) × (o ≡ success (from_inner (P.with_body buf boundary)))
      × IsWhole buf
      × (unread buf ≡ bytes)

  -- What the filter comes to once the body is read.
  abbrev pub Read : Str → RequestState H → RequestOutcome H (Unit {0}) (One P.Multipart) → Type 0
  Read boundary st x =
      (x.request_state.current_path_index ≡ st.current_path_index)
      × IsCounted x.request_state.body
      × (content x.request_state.body ≡ content st.body)
      × Delivers boundary (content st.body) x.outcome

  -- The same after the check on the content type.
  abbrev Checked :
      Request H
      → RequestState H
      → Option Str
      → RequestOutcome H (Unit {0}) (One P.Multipart)
      → Type 0
  Checked r st none x = x ≡ record {
    request_state = st;
    outcome = error (box multipart_error (rejected P (content_type_of r).1.0));
  }
  Checked r st (some boundary) x = Read boundary st x

  find_boundary-given :
      (mime : Option H.Mime) (value : Option H.HeaderValue)
      → find_boundary P (mime, (value, tt)) ≡ given P value (mime >>= boundary_of P)
  unfolding find_boundary
  find_boundary-given none value = refl
  find_boundary-given (some mime) value = refl

  bounded-Runs :
      (r : Request H) (st : RequestState H)
      → Runs (bounded P) r st tt (some (handled st (given P (content_type_of r).1.0 (declared r))))
  bounded-Runs r st =
      subst (λ x. Runs (bounded P) r st tt (some (handled st x)))
        (find_boundary-given (content_type_of r).0 (content_type_of r).1.0)
        (handle_success r st st content_type (λ args. some (find_boundary P args)) tt
          (content_type_of r) (content_type-Runs r st))

  -- From what taking the body comes to, to what the whole comes to where there is a boundary.
  delivered :
      (r : Request H) (st st' : RequestState H) (boundary : Str)
      (o : Outcome H (Unit {0}) (One BytesBuf)) (bytes : Option (List ℕ))
      → Runs (bounded P) r st tt (came_to st (success (from_inner boundary)))
      → Runs all r st tt (came_to st' o)
      → Took bytes o
      → (last : Outcome H (Unit {0}) (One P.Multipart)) × Runs
          (multipart P)
          r
          st
          tt
          (came_to (reset st.current_path_index st') last)
        × Delivers boundary bytes last
  unfolding multipart map_request_outcome map_outcome append append_one from_result
  delivered r st st' boundary o none found c (e, same) =
      let ending = reset st.current_path_index st' in
      (
        error (box multipart_error (reading e)),
        handle_error r st ending (and_filter (bounded P) (readable P) both) parse tt
            (box multipart_error (reading e))
            (and_success r st st (bounded P) (readable P) both tt (from_inner boundary) _ found (
              recover_error r st st' all body_error
                (λ x. some (err (box multipart_error (reading (into_inner x))))) tt e
                (subst (λ y. Runs all r st tt (came_to st' y)) same c))),
        (e, refl),
      )
  delivered r st st' boundary o (some bytes) found c (buf, same, w, e) =
      let ending = reset st.current_path_index st' in
      (
        success (from_inner (P.with_body buf boundary)),
        handle_success r st ending (and_filter (bounded P) (readable P) both) parse tt
            (boundary, (buf, tt))
            (and_success r st st (bounded P) (readable P) both tt (from_inner boundary) _ found (
              recover_success r st st' all body_error
                (λ x. some (err (box multipart_error (reading (into_inner x))))) tt (from_inner buf)
                (subst (λ y. Runs all r st tt (came_to st' y)) same c))),
        (buf, refl, w, e),
      )

  answered :
      (r : Request H) (st : RequestState H) (boundary : Option Str)
      → IsCounted st.body
      → IsEnding st.body
      → Runs (bounded P) r st tt (some (handled st (given P (content_type_of r).1.0 boundary)))
      → (x : RequestOutcome H (Unit {0}) (One P.Multipart)) × Runs (multipart P) r st tt (some x)
        × Checked r st boundary x
  unfolding multipart from_result
  answered r st none counted ends c = (
    _,
    handle_error r st st (and_filter (bounded P) (readable P) both) parse tt _
        (and_error r st st (bounded P) (readable P) both tt _ c),
    refl,
  )
  answered r st (some boundary) counted ends c =
      let (y, run, (i, up, counted', same, took)) = all-Runs r st counted ends in
      let (last, run', d) =
        delivered r st y.request_state boundary y.outcome (content st.body) c run took in
      (_, run', (refl, counted', same, d))

  -- The request declares the type `multipart/form-data`, with the boundary.
  abbrev pub Declares : Request H → Str → Type 0
  Declares r boundary =
      (mime : H.Mime) × ((header r (H.known Http.content_type) >>= H.to_str >>= H.parse_mime)
        ≡ some mime)
      × (H.type_is mime (str "multipart") ≡ true)
      × (H.subtype_is mime (str "form-data") ≡ true)
      × (P.boundary mime ≡ some boundary)

  -- The error of a request that declares none.
  abbrev pub complaint : Option H.HeaderValue → MultipartError H
  complaint none = no_content_type
  complaint (some value) = wrong_content_type value

  rejected-complaint : (value : Option H.HeaderValue) → rejected P value ≡ complaint value
  rejected-complaint none = refl
  rejected-complaint (some value) = refl

  declared_cases :
      (r : Request H)
      → ((boundary : Str) × Declares r boundary × (declared r ≡ some boundary))
        ⊎ ((¬ ((boundary : Str) × Declares r boundary)) × (declared r ≡ none))
  declared_cases r =
      elim (Option-cases (header r (H.known Http.content_type) >>= H.to_str >>= H.parse_mime)) [
        | inl n ↦ inr ((λ (b, (mime, e, t, s, f)). absurd (cc (n, e))), rw n refl)
        | inr (mime, e) ↦ elim (Bool-cases (H.type_is mime (str "multipart"))) [
          | inr t ↦ inr (
            (λ (b, (mime', e', t', s', f')).
                let same : mime ≡ mime' = cc (e, e') in absurd (cc (same, t, t'))),
            rw (e, t) refl,
          )
          | inl t ↦ elim (Bool-cases (H.subtype_is mime (str "form-data"))) [
            | inr s ↦ inr (
              (λ (b, (mime', e', t', s', f')).
                  let same : mime ≡ mime' = cc (e, e') in absurd (cc (same, s, s'))),
              rw (e, t, s) refl,
            )
            | inl s ↦ elim (Option-cases (P.boundary mime)) [
              | inl f ↦ inr (
                (λ (b, (mime', e', t', s', f')).
                    let same : mime ≡ mime' = cc (e, e') in absurd (cc (same, f, f'))),
                rw (e, t, s) f,
              )
              | inr (boundary, f) ↦ inl (boundary, (mime, e, t, s, f), rw (e, t, s) f)
            ]
          ]
        ]
      ]

  -- What the filter comes to, by the content type of the request.
  abbrev pub Answers :
      Request H → RequestState H → RequestOutcome H (Unit {0}) (One P.Multipart) → Type 0
  Answers r st x =
      ((boundary : Str) × Declares r boundary × Read boundary st x)
      ⊎ ((¬ ((boundary : Str) × Declares r boundary))
          × (x ≡ record {
            request_state = st;
            outcome =
                error (box multipart_error (complaint (header r (H.known Http.content_type))));
          }))

  -- Run in a state whose body counts its chunks and ends or fails after a finite number of polls, the
  -- filter is done after a finite number of polls. If the request does not declare the content type
  -- `multipart/form-data` with a boundary, it ends in the error that has the header, if there is one,
  -- and the body is not read. Else it ends in the error of reading the body if a part of the body fails,
  -- and if none does, it succeeds with the parser on that boundary and on a whole buffer of the bytes of
  -- the body; the body has the same content afterwards.
  pub multipart-Runs :
      (r : Request H) (st : RequestState H)
      → IsCounted st.body
      → IsEnding st.body
      → (x : RequestOutcome H (Unit {0}) (One P.Multipart)) × Runs (multipart P) r st tt (some x)
        × Answers r st x
  multipart-Runs r st counted ends =
      let (x, run, found) = answered r st (declared r) counted ends (bounded-Runs r st) in
      elim (declared_cases r) [
        | inl (boundary, declares, e) ↦
            (x, run, inl (boundary, declares, subst (λ y. Checked r st y x) e found))
        | inr (undeclared, e) ↦ (
          x,
          run,
          inr (
            undeclared,
            subst (λ y. Checked r st y x) e found
                ∙ ap (λ c. record { request_state = st; outcome = error (box multipart_error c) })
                    (rejected-complaint (header r (H.known Http.content_type))),
          ),
        )
      ]
