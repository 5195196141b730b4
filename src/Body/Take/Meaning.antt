-- ===== src/Body/Take/Meaning.antt =====
-- What taking the body of a request comes to, if the body ends.
use mathlib.Core.List.{append-nil}
use mathlib.Core.Path.{subst}
use myth.Prelude.{ℕ, ◌+◌, ◌≡◌, refl, sym, ap, ◌∙◌, Option, none, some, List, [], ◌∷◌, ◌++◌, length}
use myth.Http.{Http, BodyEvent, chunk, failed, wait, endless}
use myth.Request.{
  Request, RequestState, BodyState, pending, finished, error, BodyError, poll_stream,
  poll_body_state, poll_body,
}
use myth.Request.Body.{
  concat, content, IsCounted, EndsStream, IsEnding, content-nil, content-more, more-IsCounted,
}
use myth.Errors.{box, body_error}
use myth.Outcome.{RequestOutcome, success, from_result}
use myth.Outcome
use myth.Future.{Poll, Completes, now, later, After}
use myth.Future.Sequence.{Completes-of_After, After-of_Completes}
use myth.Tuple.{One, from_inner}
use myth.Filter.{Runs}
use myth.Body.Buffer.{BytesBuf}
use myth.Body.Buffer.Meaning.{IsWhole, unread}
use myth.Body.Take.{take_answer, poll_take, all}

-- Two states that are polled alike complete alike.
pub Completes-same :
    {S A : Type 0} (poll : S → Poll S A) (s s' : S) {r : Option A}
    → poll s ≡ poll s'
    → Completes poll s' r
    → Completes poll s r
Completes-same poll s s' {r} e c =
    Completes-of_After poll s r (subst (λ p. After poll p r) (sym e) (After-of_Completes poll c))

module _ {H : Http} where
  -- The state with another body.
  abbrev pub with_body : RequestState H → BodyState H → RequestState H
  with_body st body = record st { body = body }

  -- What the filter comes to where the whole body has the bytes, or fails.
  abbrev pub Took : Option (List ℕ) → Outcome.Outcome H (Unit {0}) (One BytesBuf) → Type 0
  Took none o = (e : BodyError H) × (o ≡ Outcome.error (box body_error e))
  Took (some bytes) o =
      (buf : BytesBuf) × (o ≡ success (from_inner buf)) × IsWhole buf × (unread buf ≡ bytes)

  -- The filter is done, leaves a body with the same content, and has taken it.
  abbrev pub Takes : RequestState H → BodyState H → Type 0
  Takes st body =
      (body' : BodyState H) × (o : Outcome.Outcome H (Unit {0}) (One BytesBuf)) × Completes
        poll_take (some (with_body st body))
        (some (record { request_state = with_body st body'; outcome = o }))
      × IsCounted body'
      × (content body' ≡ content body)
      × Took (content body) o

module _ (H : Http) (st : RequestState H) where
  -- A body that is polled like another one, with the same content.
  alike-Takes :
      (body body' : BodyState H)
      → poll_take (some (with_body st body')) ≡ poll_take (some (with_body st body))
      → content body ≡ content body'
      → Takes {H = H} st body
      → Takes {H = H} st body'
  alike-Takes body body' p e (last, o, c, i, same, took) = (
    last,
    o,
    Completes-same poll_take (some (with_body st body')) (some (with_body st body)) p c,
    i,
    same ∙ e,
    subst (λ x. Took {H = H} x o) e took,
  )

  finished-Takes :
      (bytes : List (List ℕ)) (len : ℕ)
      → IsCounted {H = H} (finished bytes len)
      → Takes {H = H} st (finished bytes len)
  unfolding poll_take poll_body poll_body_state from_result take_answer
  finished-Takes bytes len h = (
    finished bytes len,
    success (from_inner (record { bytes = bytes; len = len })),
    now refl,
    h,
    refl,
    (record { bytes = bytes; len = len }, refl, h, refl),
  )

  stream-Takes :
      (stream : List (BodyEvent H.HyperError)) (bytes : List (List ℕ)) (len : ℕ)
      → IsCounted {H = H} (pending stream bytes len)
      → EndsStream stream
      → Takes {H = H} st (pending stream bytes len)
  unfolding poll_take poll_body poll_body_state poll_stream take_answer from_result
  stream-Takes [] bytes len h k =
      alike-Takes (finished bytes len) (pending [] bytes len) refl
        (ap some (sym (append-nil (concat bytes)))) (finished-Takes bytes len h)
  stream-Takes (chunk [] ∷ stream) bytes len h k =
      alike-Takes (pending stream bytes len) (pending (chunk [] ∷ stream) bytes len) refl
        (content-nil H stream bytes len) (stream-Takes stream bytes len h k)
  stream-Takes (chunk (b ∷ buf) ∷ stream) bytes len h k =
      alike-Takes (pending stream (bytes ++ (b ∷ buf) ∷ []) (len + length (b ∷ buf)))
        (pending (chunk (b ∷ buf) ∷ stream) bytes len) refl
        (content-more H stream bytes len (len + length (b ∷ buf)) (b ∷ buf))
        (stream-Takes stream (bytes ++ (b ∷ buf) ∷ []) (len + length (b ∷ buf))
          (more-IsCounted H (chunk (b ∷ buf) ∷ stream) stream bytes len b buf h) k)
  stream-Takes (failed e ∷ stream) bytes len h k = (
    error,
    Outcome.error (box body_error (record { inner = some e })),
    now refl,
    tt,
    refl,
    (_, refl),
  )
  stream-Takes (wait ∷ stream) bytes len h k =
      let (body', o, c, i, same, took) = stream-Takes stream bytes len h k in
      (body', o, later refl c, i, same, took)
  stream-Takes (endless chunks ∷ stream) bytes len h k = absurd k

  body-Takes : (body : BodyState H) → IsCounted body → IsEnding body → Takes {H = H} st body
  unfolding poll_take poll_body poll_body_state take_answer from_result
  body-Takes (pending stream bytes len) h k = stream-Takes stream bytes len h k
  body-Takes (finished bytes len) h k = finished-Takes bytes len h
  body-Takes error h k = (
    error,
    Outcome.error (box body_error (record { inner = none })),
    now refl,
    tt,
    refl,
    (_, refl),
  )

module _ {H : Http} where
  -- The outcome of a filter that takes the body whose content is given.
  abbrev pub TakesBody : RequestState H → RequestOutcome H (Unit {0}) (One BytesBuf) → Type 0
  TakesBody st x =
      (x.request_state.current_path_index ≡ st.current_path_index)
      × (x.request_state.on_upgrade ≡ st.on_upgrade)
      × IsCounted x.request_state.body
      × (content x.request_state.body ≡ content st.body)
      × Took (content st.body) x.outcome

  -- Run in a state whose body counts its chunks and ends or fails after a finite number of polls,
  -- `body::all` is done after a finite number of polls. If
  -- no part of the body fails, it succeeds with a whole buffer of all the bytes of the body, those that
  -- were received before and those that came while it ran; if one does, it ends in the error of reading a
  -- body. The state that it leaves has a body with the same content, and else what it had.
  pub all-Runs :
      (r : Request H) (st : RequestState H)
      → IsCounted st.body
      → IsEnding st.body
      → (x : RequestOutcome H (Unit {0}) (One BytesBuf)) × Runs all r st tt (some x)
        × TakesBody st x
  unfolding all
  all-Runs r st h k =
      let (body', o, c, i, same, took) = body-Takes H st st.body h k in
      (record { request_state = with_body st body'; outcome = o }, c, (refl, refl, i, same, took))
