-- ===== src/Request/Body.antt =====
-- The body of a request: what polling it does to the bytes that it yields.
use mathlib.Core.List.{append_assoc, append-nil}
use mathlib.Core.Option
use mathlib.Core.Path.{subst}
use myth.Prelude.{
  ℕ, zero, suc, ◌+◌, ◌≡◌, ◌≢◌, refl, sym, ap, ◌∙◌, Option, none, some, List, [], ◌∷◌, ◌++◌, length,
  length-append, All, All-append, ok, err,
}
use myth.Http.{Http, BodyEvent, chunk, failed, wait, endless}
use myth.Request.{
  RequestState, BodyState, pending, finished, error, BodyPoll, waiting, answer, receive_chunks,
  poll_stream, poll_body_state, poll_body,
}

abbrev pub concat : List (List ℕ) → List ℕ
concat [] = []
concat (b ∷ bs) = b ++ concat bs

pub concat-snoc : (bs : List (List ℕ)) (b : List ℕ) → concat (bs ++ b ∷ []) ≡ concat bs ++ b
concat-snoc [] b = append-nil b
concat-snoc (c ∷ bs) b = ap (λ l. c ++ l) (concat-snoc bs b) ∙ sym (append_assoc c (concat bs) b)

snoc-more :
    (bs : List (List ℕ)) (b rest : List ℕ)
    → concat (bs ++ b ∷ []) ++ rest ≡ concat bs ++ (b ++ rest)
snoc-more bs b rest = ap (λ l. l ++ rest) (concat-snoc bs b) ∙ append_assoc (concat bs) b rest

-- The bytes that the rest of a stream holds, if it comes to an end and no part of it fails.
abbrev pub stream_bytes : {E : Type 0} → List (BodyEvent E) → Option (List ℕ)
stream_bytes [] = some []
stream_bytes (chunk b ∷ stream) = Option.map (λ l. b ++ l) (stream_bytes stream)
stream_bytes (failed e ∷ stream) = none
stream_bytes (wait ∷ stream) = stream_bytes stream
stream_bytes (endless chunks ∷ stream) = none

-- The bytes that are ready at once.
abbrev pub ready_bytes : {E : Type 0} → List (BodyEvent E) → List ℕ
ready_bytes [] = []
ready_bytes (chunk b ∷ stream) = b ++ ready_bytes stream
ready_bytes (failed e ∷ stream) = []
ready_bytes (wait ∷ stream) = []
ready_bytes (endless chunks ∷ stream) = concat (chunks zero)

-- The stream ends, or fails, after a finite number of polls.
abbrev pub EndsStream : {E : Type 0} → List (BodyEvent E) → Type 0
EndsStream [] = Unit
EndsStream (chunk b ∷ stream) = EndsStream stream
EndsStream (failed e ∷ stream) = Unit
EndsStream (wait ∷ stream) = EndsStream stream
EndsStream (endless chunks ∷ stream) = ⊥

map-nil : (o : Option (List ℕ)) → Option.map (λ l. [] ++ l) o ≡ o
map-nil none = refl
map-nil (some l) = refl

map-append :
    (bytes : List (List ℕ)) (b : List ℕ) (o : Option (List ℕ))
    → Option.map (λ l. concat (bytes ++ b ∷ []) ++ l) o
      ≡ Option.map (λ l. concat bytes ++ l) (Option.map (λ l. b ++ l) o)
map-append bytes b none = refl
map-append bytes b (some l) =
    ap some (ap (λ x. x ++ l) (concat-snoc bytes b) ∙ append_assoc (concat bytes) b l)

module _ {H : Http} where
  -- The bytes of the whole body, those that were received and those that are to come; none if it
  -- fails or never ends.
  abbrev pub content : BodyState H → Option (List ℕ)
  content (pending stream bytes len) = Option.map (λ l. concat bytes ++ l) (stream_bytes stream)
  content (finished bytes len) = some (concat bytes)
  content error = none

  -- The bytes that were received, and those that a poll finds ready.
  abbrev pub received : BodyState H → List ℕ
  received (pending stream bytes len) = concat bytes
  received (finished bytes len) = concat bytes
  received error = []

  abbrev pub ready : BodyState H → List ℕ
  ready (pending stream bytes len) = ready_bytes stream
  ready (finished bytes len) = []
  ready error = []

  -- The body has failed, or has received these bytes.
  abbrev pub Holds : BodyState H → List ℕ → Type 0
  Holds (pending stream bytes len) b = concat bytes ≡ b
  Holds (finished bytes len) b = concat bytes ≡ b
  Holds error b = Unit

  -- The length that is kept is that of the chunks, and no chunk is empty.
  abbrev pub IsCounted : BodyState H → Type 0
  IsCounted (pending stream bytes len) = (len ≡ length (concat bytes)) × All (λ b. b ≢ []) bytes
  IsCounted (finished bytes len) = (len ≡ length (concat bytes)) × All (λ b. b ≢ []) bytes
  IsCounted error = Unit

  -- The body ends, or fails, after a finite number of polls.
  abbrev pub IsEnding : BodyState H → Type 0
  IsEnding (pending stream bytes len) = EndsStream stream
  IsEnding (finished bytes len) = Unit
  IsEnding error = Unit

  -- What an answer says of the state that goes with it.
  abbrev pub Answers : BodyState H × BodyPoll H → Type 0
  Answers (state, waiting) = Unit
  Answers (state, answer (ok (bytes, len))) = state ≡ finished bytes len
  Answers (state, answer (err e)) = state ≡ error

module _ (H : Http) where
  -- A chunk that is received is counted, and moves from the stream to the chunks.
  pub more-IsCounted :
      (stream rest : List (BodyEvent H.HyperError)) (bytes : List (List ℕ)) (len b : ℕ)
      (buf : List ℕ)
      → IsCounted {H = H} (pending stream bytes len)
      → IsCounted {H = H} (pending rest (bytes ++ (b ∷ buf) ∷ []) (len + length (b ∷ buf)))
  more-IsCounted stream rest bytes len b buf h = (
    rw (concat-snoc bytes (b ∷ buf), length-append (concat bytes) (b ∷ buf), h.0) refl,
    All-append (λ x. x ≢ []) bytes ((b ∷ buf) ∷ []) h.1 (λ n. cc, tt),
  )

  pub content-more :
      (stream : List (BodyEvent H.HyperError)) (bytes : List (List ℕ)) (len len' : ℕ)
      (chunk_bytes : List ℕ)
      → content {H = H} (pending stream (bytes ++ chunk_bytes ∷ []) len')
        ≡ content {H = H} (pending (chunk chunk_bytes ∷ stream) bytes len)
  content-more stream bytes len len' chunk_bytes =
      map-append bytes chunk_bytes (stream_bytes stream)

  pub content-nil :
      (stream : List (BodyEvent H.HyperError)) (bytes : List (List ℕ)) (len : ℕ)
      → content {H = H} (pending stream bytes len)
        ≡ content {H = H} (pending (chunk [] ∷ stream) bytes len)
  content-nil stream bytes len =
      ap (λ o. Option.map (λ l. concat bytes ++ l) o) (sym (map-nil (stream_bytes stream)))

  -- Chunks that are received are counted.
  receive_chunks-IsCounted :
      (chunks : List (List ℕ)) (stream rest : List (BodyEvent H.HyperError)) (bytes : List (List ℕ))
      (len : ℕ)
      → IsCounted {H = H} (pending stream bytes len)
      → IsCounted {H = H}
          (pending rest (receive_chunks chunks bytes len).0 (receive_chunks chunks bytes len).1)
  unfolding receive_chunks
  receive_chunks-IsCounted [] stream rest bytes len h = h
  receive_chunks-IsCounted ([] ∷ chunks) stream rest bytes len h =
      receive_chunks-IsCounted chunks stream rest bytes len h
  receive_chunks-IsCounted ((b ∷ buf) ∷ chunks) stream rest bytes len h =
      receive_chunks-IsCounted chunks stream rest (bytes ++ (b ∷ buf) ∷ []) (len + length (b ∷ buf))
        (more-IsCounted stream stream bytes len b buf h)

  receive_chunks-concat :
      (chunks bytes : List (List ℕ)) (len : ℕ)
      → concat (receive_chunks chunks bytes len).0 ≡ concat bytes ++ concat chunks
  unfolding receive_chunks
  receive_chunks-concat [] bytes len = sym (append-nil (concat bytes))
  receive_chunks-concat ([] ∷ chunks) bytes len = receive_chunks-concat chunks bytes len
  receive_chunks-concat ((b ∷ buf) ∷ chunks) bytes len =
      receive_chunks-concat chunks (bytes ++ (b ∷ buf) ∷ []) (len + length (b ∷ buf))
      ∙ snoc-more bytes (b ∷ buf) (concat chunks)

  poll_stream-Holds :
      (stream : List (BodyEvent H.HyperError)) (bytes : List (List ℕ)) (len : ℕ)
      → Holds {H = H} (poll_stream stream bytes len).0 (concat bytes ++ ready_bytes stream)
  unfolding poll_stream
  poll_stream-Holds [] bytes len = sym (append-nil (concat bytes))
  poll_stream-Holds (chunk [] ∷ stream) bytes len = poll_stream-Holds stream bytes len
  poll_stream-Holds (chunk (b ∷ buf) ∷ stream) bytes len =
      let gained = poll_stream-Holds stream (bytes ++ (b ∷ buf) ∷ []) (len + length (b ∷ buf)) in
      subst
        (Holds {H = H} (poll_stream stream (bytes ++ (b ∷ buf) ∷ []) (len + length (b ∷ buf))).0)
        (snoc-more bytes (b ∷ buf) (ready_bytes stream)) gained
  poll_stream-Holds (failed e ∷ stream) bytes len = tt
  poll_stream-Holds (wait ∷ stream) bytes len = sym (append-nil (concat bytes))
  poll_stream-Holds (endless chunks ∷ stream) bytes len =
      receive_chunks-concat (chunks zero) bytes len

  poll_stream_lem :
      (stream : List (BodyEvent H.HyperError)) (bytes : List (List ℕ)) (len : ℕ)
      → IsCounted {H = H} (pending stream bytes len)
      → IsCounted {H = H} (poll_stream stream bytes len).0
        × (content {H = H} (poll_stream stream bytes len).0
            ≡ content {H = H} (pending stream bytes len))
        × Answers {H = H} (poll_stream stream bytes len)
  unfolding poll_stream
  poll_stream_lem [] bytes len h = (h, ap some (sym (append-nil (concat bytes))), refl)
  poll_stream_lem (chunk [] ∷ stream) bytes len h =
      let (c, e, a) = poll_stream_lem stream bytes len h in (c, e ∙ content-nil stream bytes len, a)
  poll_stream_lem (chunk (b ∷ buf) ∷ stream) bytes len h =
      let (c, e, a) =
        poll_stream_lem stream (bytes ++ (b ∷ buf) ∷ []) (len + length (b ∷ buf))
          (more-IsCounted (chunk (b ∷ buf) ∷ stream) stream bytes len b buf h) in
      (c, e ∙ content-more stream bytes len (len + length (b ∷ buf)) (b ∷ buf), a)
  poll_stream_lem (failed e ∷ stream) bytes len h = (tt, refl, refl)
  poll_stream_lem (wait ∷ stream) bytes len h = (h, refl, tt)
  poll_stream_lem (endless chunks ∷ stream) bytes len h = (
    receive_chunks-IsCounted (chunks zero) (endless chunks ∷ stream)
        (endless (λ n. chunks (suc n)) ∷ stream) bytes len h,
    refl,
    tt,
  )

module _ {H : Http} where
  poll_body_state-Holds :
      (body : BodyState H) → Holds (poll_body_state body).0 (received body ++ ready body)
  unfolding poll_body_state
  poll_body_state-Holds (pending stream bytes len) = poll_stream-Holds H stream bytes len
  poll_body_state-Holds (finished bytes len) = sym (append-nil (concat bytes))
  poll_body_state-Holds error = tt

  poll_body_state_lem :
      (body : BodyState H)
      → IsCounted body
      → IsCounted (poll_body_state body).0
        × (content (poll_body_state body).0 ≡ content body)
        × Answers (poll_body_state body)
  unfolding poll_body_state
  poll_body_state_lem (pending stream bytes len) h = poll_stream_lem H stream bytes len h
  poll_body_state_lem (finished bytes len) h = (h, refl, refl)
  poll_body_state_lem error h = (tt, refl, refl)

  -- From a state whose length is that of its chunks, none of them empty, polling the body leaves such
  -- a state, and the bytes that the whole body has, received and to come, stay the same. If the body has
  -- not failed, what was received has grown by just the bytes that were ready. If the poll answers with
  -- chunks and a length, the body is finished with just these; if it answers with an error, the body has
  -- failed.
  pub poll_body_lem :
      (st : RequestState H)
      → IsCounted st.body
      → IsCounted (poll_body st).0.body
        × (content (poll_body st).0.body ≡ content st.body)
        × Holds (poll_body st).0.body (received st.body ++ ready st.body)
        × Answers ((poll_body st).0.body, (poll_body st).1)
  unfolding poll_body
  poll_body_lem st h =
      let (counted, same, answers) = poll_body_state_lem st.body h in
      (counted, same, poll_body_state-Holds st.body, answers)
