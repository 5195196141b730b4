-- ===== src/Tls/Transparent.antt =====
-- What a client of an encrypted stream sees: until the handshake of its connection is done it waits, and
-- from then on every call is the one on the stream that the handshake has made.
use myth.Prelude.{ℕ, ◌≡◌, refl, Result, ok, List, [], ◌∷◌, ◌++◌, map}
use myth.Tls.{
  Progress, pending, done, Transport, TlsStreamState, handshaking, streaming, TlsStream, accepted,
  call, after_handshake, read_write_state, poll_read_write, flush_shutdown_state,
  poll_flush_shutdown, poll_read, poll_write, poll_flush, poll_shutdown,
}

-- A call of `AsyncRead` or `AsyncWrite`
pub data Command : Type 0 where
  reads writes : List ℕ → Command
  flushes shuts_down : Command

-- A call that polls the handshake.
abbrev pub IsTransfer : Command → Type 0
IsTransfer (reads buf) = Unit
IsTransfer (writes buf) = Unit
IsTransfer flushes = ⊥
IsTransfer shuts_down = ⊥

module _ (T : Transport) where
  -- What it is answered with
  pub data Reply : Type 0 where
    read : Progress (Result (List ℕ) T.IoError) → Reply
    written : Progress (Result ℕ T.IoError) → Reply
    finished : Progress (Result (Unit {0}) T.IoError) → Reply

  -- The handshake is left from the first state in the second by the reads and writes among the calls, and
  -- is not done at any of them.
  abbrev pub Shakes : T.Accepting → List Command → T.Accepting → Type 0
  Shakes a [] a' = a ≡ a'
  Shakes a (reads buf ∷ cs) a' = ((T.poll_unpin a).1 ≡ pending) × Shakes (T.poll_unpin a).0 cs a'
  Shakes a (writes buf ∷ cs) a' = ((T.poll_unpin a).1 ≡ pending) × Shakes (T.poll_unpin a).0 cs a'
  Shakes a (flushes ∷ cs) a' = Shakes a cs a'
  Shakes a (shuts_down ∷ cs) a' = Shakes a cs a'

module _ {T : Transport} where
  -- The call on the stream of the program, and on the encrypted stream of the TLS library.
  abbrev pub perform : Command → TlsStream T → TlsStream T × Reply T
  perform (reads buf) s = let (s, x) = poll_read buf s in (s, read x)
  perform (writes buf) s = let (s, x) = poll_write buf s in (s, written x)
  perform flushes s = let (s, x) = poll_flush s in (s, finished x)
  perform shuts_down s = let (s, x) = poll_shutdown s in (s, finished x)

  abbrev pub direct : Command → T.Encrypted → T.Encrypted × Reply T
  direct (reads buf) e = let (e, x) = T.poll_read buf e in (e, read x)
  direct (writes buf) e = let (e, x) = T.poll_write buf e in (e, written x)
  direct flushes e = let (e, x) = T.poll_flush e in (e, finished x)
  direct shuts_down e = let (e, x) = T.poll_shutdown e in (e, finished x)

  -- Calls one after another, and their answers.
  abbrev pub all_of :
      {S : Type 0} → (Command → S → S × Reply T) → List Command → S → S × List (Reply T)
  all_of one [] s = (s, [])
  all_of one (c ∷ cs) s = let (s, x) = one c s in let (s, xs) = all_of one cs s in (s, x ∷ xs)

  -- What a call is answered with meanwhile.
  abbrev pub early_reply : Command → Reply T
  early_reply (reads buf) = read pending
  early_reply (writes buf) = written pending
  early_reply flushes = finished (done (ok tt))
  early_reply shuts_down = finished (done (ok tt))

  -- A stream in the state, at the address.
  abbrev pub stream_at : T.SocketAddr → TlsStreamState T → TlsStream T
  stream_at addr state = record { state = state; remote_addr = addr }

  module _ (addr : T.SocketAddr) where
    perform-direct :
        (c : Command) (e : T.Encrypted)
        → perform c (stream_at addr (streaming e))
          ≡ (stream_at addr (streaming (direct c e).0), (direct c e).1)
    unfolding poll_read poll_write poll_flush poll_shutdown poll_read_write poll_flush_shutdown
        read_write_state flush_shutdown_state call
    perform-direct (reads buf) e = refl
    perform-direct (writes buf) e = refl
    perform-direct flushes e = refl
    perform-direct shuts_down e = refl

    perform-early :
        (c : Command) (a a' : T.Accepting) (cs : List Command)
        → Shakes T a (c ∷ cs) a'
        → (a'' : T.Accepting) × (perform c (stream_at addr (handshaking a))
            ≡ (stream_at addr (handshaking a''), early_reply c))
          × Shakes T a'' cs a'
    unfolding poll_read poll_write poll_flush poll_shutdown poll_read_write poll_flush_shutdown
        read_write_state flush_shutdown_state after_handshake
    perform-early (reads buf) a a' cs (e, h) = ((T.poll_unpin a).0, rw e refl, h)
    perform-early (writes buf) a a' cs (e, h) = ((T.poll_unpin a).0, rw e refl, h)
    perform-early flushes a a' cs h = (a, refl, h)
    perform-early shuts_down a a' cs h = (a, refl, h)

    perform-made :
        (c : Command) (a : T.Accepting) (e : T.Encrypted)
        → IsTransfer c
        → (T.poll_unpin a).1 ≡ done (ok e)
        → perform c (stream_at addr (handshaking a))
          ≡ (stream_at addr (streaming (direct c e).0), (direct c e).1)
    unfolding poll_read poll_write poll_read_write read_write_state after_handshake call
    perform-made (reads buf) a e t h = rw h refl
    perform-made (writes buf) a e t h = rw h refl
    perform-made flushes a e t h = absurd t
    perform-made shuts_down a e t h = absurd t

    performed-direct :
        (cs : List Command) (e : T.Encrypted)
        → all_of perform cs (stream_at addr (streaming e))
          ≡ (stream_at addr (streaming (all_of direct cs e).0), (all_of direct cs e).1)
    performed-direct [] e = refl
    performed-direct (c ∷ cs) e = rw (perform-direct c e, performed-direct cs (direct c e).0) refl

    performed :
        (early : List Command) (a a' : T.Accepting) (c : Command) (later : List Command)
        (e : T.Encrypted)
        → Shakes T a early a'
        → IsTransfer c
        → (T.poll_unpin a').1 ≡ done (ok e)
        → all_of perform (early ++ c ∷ later) (stream_at addr (handshaking a)) ≡ (
          stream_at addr (streaming (all_of direct (c ∷ later) e).0),
          map early_reply early ++ (all_of direct (c ∷ later) e).1,
        )
    performed [] a a' c later e h t made =
        rw (h, perform-made c a' e t made, performed-direct later (direct c e).0) refl
    performed (b ∷ early) a a' c later e h t made =
        let (a'', same, rest) = perform-early b a a' early h in
        rw (same, performed early a'' a' c later e rest t made) refl

  -- On the stream of an accepted connection, calls are made, of which the reads and writes poll the
  -- handshake and find it not done; then a read or a write at which it succeeds with an encrypted stream,
  -- and then any further calls, in any order. The early reads and writes are answered with waiting, the
  -- early flushes and shutdowns with success; all others are answered as the same calls on that encrypted
  -- stream, in the same order, are. The stream is left with what these calls leave of it, and with the
  -- remote address of the connection.
  pub accepted-direct :
      (socket : T.Socket) (early : List Command) (a : T.Accepting) (c : Command)
      (later : List Command) (e : T.Encrypted)
      → Shakes T (T.accept socket) early a
      → IsTransfer c
      → (T.poll_unpin a).1 ≡ done (ok e)
      → all_of perform (early ++ c ∷ later) (accepted socket) ≡ (
        stream_at (T.remote_addr socket) (streaming (all_of direct (c ∷ later) e).0),
        map early_reply early ++ (all_of direct (c ∷ later) e).1,
      )
  unfolding accepted
  accepted-direct socket early a c later e h t made =
      performed (T.remote_addr socket) early (T.accept socket) a c later e h t made
