-- ===== src/Tests/Transport.antt =====
-- An example of a transport for src/tls.rs: a handshake is a number of polls that are left, of which
-- zero is one that fails, and an encrypted stream counts the calls on it.
use myth.Prelude.{ℕ, zero, suc, ◌≡◌, Result, ok, err, [], ◌∷◌, ◌++◌, map, refl}
use myth.Tls.{Progress, pending, done, Transport, streaming, accepted}
use myth.Tls.Transparent.{
  reads, writes, flushes, shuts_down, perform, direct, all_of, early_reply, stream_at,
  accepted-direct,
}

abbrev shake : ℕ → ℕ × Progress (Result ℕ (Unit {0}))
shake zero = (zero, done (err tt))
shake (suc zero) = (zero, done (ok 0))
shake (suc (suc n)) = (suc n, pending)

abbrev counting : Transport
counting = record {
  SocketAddr = ℕ;
  IoError = Unit;
  Socket = ℕ;
  remote_addr = λ socket. socket;
  Accepting = ℕ;
  Encrypted = ℕ;
  accept = λ socket. 2;
  poll_unpin = shake;
  poll_read = λ buf calls. (suc calls, done (ok buf));
  poll_write = λ buf calls. (suc calls, done (ok 0));
  poll_flush = λ calls. (suc calls, done (ok tt));
  poll_shutdown = λ calls. (suc calls, done (ok tt));
}

-- A read and a flush before the handshake is done, and a write at which it is.
accepted-direct_example :
    all_of {T = counting} perform
      (reads [] ∷ flushes ∷ writes [] ∷ shuts_down ∷ [])
      (accepted {T = counting} 7)
    ≡ (
      stream_at {T = counting} 7
          (streaming (all_of {T = counting} direct (writes [] ∷ shuts_down ∷ []) 0).0),
      map (early_reply {T = counting}) (reads [] ∷ flushes ∷ [])
          ++ (all_of {T = counting} direct (writes [] ∷ shuts_down ∷ []) 0).1,
    )
accepted-direct_example =
    accepted-direct {T = counting} 7 (reads [] ∷ flushes ∷ []) 1 (writes []) (shuts_down ∷ []) 0
      (refl, refl) tt refl
