-- ===== src/Body/Take/Halts.antt =====
-- What `body::all` comes to from every state, counted or not, whose body may also never end.
use myth.Prelude.{ℕ, ◌+◌, ◌≡◌, ◌⊎◌, inl, inr, refl, Option, some, List, [], ◌∷◌, ◌++◌, length}
use myth.Http.{Http, BodyEvent, chunk, failed, wait, endless}
use myth.Request.{
  Request, RequestState, BodyState, BodyError, pending, finished, error, poll_stream,
  poll_body_state, poll_body,
}
use myth.Request.Body.{EndsStream, IsEnding}
use myth.Errors.{box, body_error}
use myth.Outcome.{RequestOutcome, success, from_result}
use myth.Outcome
use myth.Future.{Poll, ready, waiting, Completes, now, later, panics}
use myth.Tuple.{One}
use myth.Filter.{Runs}
use myth.Body.Buffer.{BytesBuf}
use myth.Body.Take.{take_answer, poll_take, all}
use myth.Body.Take.Meaning.{with_body, Completes-same}

module _ {H : Http} where
  -- Done with a body in the state that has ended and no other change, and with a success or a body's
  -- error.
  abbrev pub Ends : RequestState H → RequestOutcome H (Unit {0}) (One BytesBuf) → Type 0
  Ends st x =
      (x.request_state.current_path_index ≡ st.current_path_index)
      × (((s : One BytesBuf) × (x.outcome ≡ success s))
          ⊎ ((e : BodyError H) × (x.outcome ≡ Outcome.error (box body_error e))))
      × IsEnding x.request_state.body

  -- A poll is done, or leaves another body to be polled.
  abbrev pub Polled :
      RequestState H
      → Poll (Option (RequestState H)) (RequestOutcome H (Unit {0}) (One BytesBuf))
      → Type 0
  Polled st p =
      ((x : RequestOutcome H (Unit {0}) (One BytesBuf)) × (p ≡ ready x) × Ends st x)
      ⊎ ((body : BodyState H) × (p ≡ waiting (some (with_body st body))))

module _ (H : Http) (st : RequestState H) where
  stream-Polled :
      (stream : List (BodyEvent H.HyperError)) (bytes : List (List ℕ)) (len : ℕ)
      → Polled {H = H} st (poll_take (some (with_body st (pending stream bytes len))))
  unfolding poll_take poll_body poll_body_state poll_stream take_answer from_result
  stream-Polled [] bytes len = inl (_, refl, (refl, inl (_, refl), tt))
  stream-Polled (chunk [] ∷ stream) bytes len = stream-Polled stream bytes len
  stream-Polled (chunk (b ∷ buf) ∷ stream) bytes len =
      stream-Polled stream (bytes ++ (b ∷ buf) ∷ []) (len + length (b ∷ buf))
  stream-Polled (failed e ∷ stream) bytes len = inl (_, refl, (refl, inr (_, refl), tt))
  stream-Polled (wait ∷ stream) bytes len = inr (_, refl)
  stream-Polled (endless chunks ∷ stream) bytes len = inr (_, refl)

  body-Polled : (body : BodyState H) → Polled {H = H} st (poll_take (some (with_body st body)))
  unfolding poll_take poll_body poll_body_state take_answer from_result
  body-Polled (pending stream bytes len) = stream-Polled stream bytes len
  body-Polled (finished bytes len) = inl (_, refl, (refl, inl (_, refl), tt))
  body-Polled error = inl (_, refl, (refl, inr (_, refl), tt))

  completed-Ends :
      {s : Option (RequestState H)} {o : Option (RequestOutcome H (Unit {0}) (One BytesBuf))}
      (body : BodyState H)
      → s ≡ some (with_body st body)
      → Completes poll_take s o
      → (x : RequestOutcome H (Unit {0}) (One BytesBuf)) × (o ≡ some x) × Ends {H = H} st x
  completed-Ends body same (now p) = elim (body-Polled body) [
    | inl (x, q, ends) ↦ (x, cc (p, q, same), ends)
    | inr (body', q) ↦ absurd (cc (p, q, same))
  ]
  completed-Ends body same (panics p) = elim (body-Polled body) [
    | inl (x, q, ends) ↦ absurd (cc (p, q, same))
    | inr (body', q) ↦ absurd (cc (p, q, same))
  ]
  completed-Ends body same (later p c) = elim (body-Polled body) [
    | inl (x, q, ends) ↦ absurd (cc (p, q, same))
    | inr (body', q) ↦ completed-Ends body' (cc (p, q, same)) c
  ]

module _ {H : Http} where
  -- Whenever the filter is done, it has come to an outcome, and there was no panic.
  pub all-Ends_of :
      (r : Request H) (st : RequestState H)
      (o : Option (RequestOutcome H (Unit {0}) (One BytesBuf)))
      → Runs all r st tt o
      → (x : RequestOutcome H (Unit {0}) (One BytesBuf)) × (o ≡ some x) × Ends st x
  unfolding all
  all-Ends_of r st o c = completed-Ends H st st.body refl c

  ended-Halts :
      (st : RequestState H) (stream : List (BodyEvent H.HyperError)) (bytes : List (List ℕ))
      (len : ℕ)
      → EndsStream stream
      → (o : Option (RequestOutcome H (Unit {0}) (One BytesBuf))) × Completes poll_take
          (some (with_body st (pending stream bytes len)))
          o
  unfolding poll_take poll_body poll_body_state poll_stream take_answer from_result
  ended-Halts st [] bytes len k = (_, now refl)
  ended-Halts st (chunk [] ∷ stream) bytes len k =
      let (o, c) = ended-Halts st stream bytes len k in
      (o, Completes-same poll_take _ (some (with_body st (pending stream bytes len))) refl c)
  ended-Halts st (chunk (b ∷ buf) ∷ stream) bytes len k =
      let (o, c) = ended-Halts st stream (bytes ++ (b ∷ buf) ∷ []) (len + length (b ∷ buf)) k in
      (
        o,
        Completes-same poll_take _
            (some
              (with_body st (pending stream (bytes ++ (b ∷ buf) ∷ []) (len + length (b ∷ buf)))))
            refl c,
      )
  ended-Halts st (failed e ∷ stream) bytes len k = (_, now refl)
  ended-Halts st (wait ∷ stream) bytes len k =
      let (o, c) = ended-Halts st stream bytes len k in (o, later refl c)
  ended-Halts st (endless chunks ∷ stream) bytes len k = absurd k

  body-Halts :
      (st : RequestState H) (body : BodyState H)
      → IsEnding body
      → (o : Option (RequestOutcome H (Unit {0}) (One BytesBuf))) × Completes poll_take
          (some (with_body st body))
          o
  unfolding poll_take poll_body poll_body_state take_answer from_result
  body-Halts st (pending stream bytes len) k = ended-Halts st stream bytes len k
  body-Halts st (finished bytes len) k = (_, now refl)
  body-Halts st error k = (_, now refl)

  -- With a body that ends, it is done after a finite number of polls.
  pub all-Halts :
      (r : Request H) (st : RequestState H)
      → IsEnding st.body
      → (o : Option (RequestOutcome H (Unit {0}) (One BytesBuf))) × Runs all r st tt o
  unfolding all
  all-Halts r st k = body-Halts st st.body k
