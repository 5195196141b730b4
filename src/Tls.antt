-- ===== src/Tls.antt =====
-- src/tls.rs: a stream that is encrypted, and the connections that are accepted as such streams.
pub mod Transparent
use myth.Prelude.{ℕ, Option, none, some, Result, ok, err, List, [], ◌∷◌}
use myth.Text.{Str, str}

-- `std::task::Poll`
pub data Progress (A : Type 0) : Type 0 where
  pending : Progress A
  done : A → Progress A

-- What the program takes from rustls, tokio-rustls and the connections that it wraps: their types, and
-- the calls, each with what it leaves of what it is called on.
pub record Transport : Type 1 where
  pub SocketAddr : Type 0
  pub IoError : Type 0
  -- `RequestStream` of the connection, and its `remote_addr`
  pub Socket : Type 0
  pub remote_addr : Socket → SocketAddr
  -- `tokio_rustls::Accept`, `tokio_rustls::server::TlsStream`
  pub Accepting : Type 0
  pub Encrypted : Type 0
  pub accept : Socket → Accepting
  pub poll_unpin : Accepting → Accepting × Progress (Result Encrypted IoError)
  -- `poll_read`, which fills a buffer, and the others
  pub poll_read : List ℕ → Encrypted → Encrypted × Progress (Result (List ℕ) IoError)
  pub poll_write : List ℕ → Encrypted → Encrypted × Progress (Result ℕ IoError)
  pub poll_flush : Encrypted → Encrypted × Progress (Result (Unit {0}) IoError)
  pub poll_shutdown : Encrypted → Encrypted × Progress (Result (Unit {0}) IoError)

module _ (T : Transport) where
  pub data TlsStreamState : Type 0 where
    handshaking : T.Accepting → TlsStreamState
    streaming : T.Encrypted → TlsStreamState

  pub record TlsStream : Type 0 where
    pub state : TlsStreamState
    pub remote_addr : T.SocketAddr

module _ {T : Transport} where
  -- The connection that `TlsAcceptor::poll_accept` makes of one that its inner acceptor gives.
  unfoldable pub accepted : T.Socket → TlsStream T
  accepted request_stream = record {
    state = handshaking (T.accept request_stream);
    remote_addr = T.remote_addr request_stream;
  }

  -- `TlsAcceptor::poll_accept`, on what `incoming.poll_accept` gives
  unfoldable pub poll_accept :
      {E : Type 0}
      → Progress (Option (Result T.Socket E))
      → Progress (Option (Result (TlsStream T) E))
  unfolding accepted
  poll_accept pending = pending
  poll_accept (done none) = done none
  poll_accept (done (some (err e))) = done (some (err e))
  poll_accept (done (some (ok request_stream))) = done (some (ok (accepted request_stream)))

  module _ {R : Type 0} (f : T.Encrypted → T.Encrypted × Progress (Result R T.IoError)) where
    -- `poll_read_write` of a stream whose handshake is over
    unfoldable pub call : T.Encrypted → TlsStreamState T × Progress (Result R T.IoError)
    call stream = let (stream, result) = f stream in (streaming stream, result)

    -- What follows a poll of the handshake
    unfoldable pub after_handshake :
        T.Accepting
        → Progress (Result T.Encrypted T.IoError)
        → TlsStreamState T × Progress (Result R T.IoError)
    unfolding call
    after_handshake future pending = (handshaking future, pending)
    after_handshake future (done (ok stream)) = call stream
    after_handshake future (done (err error)) = (handshaking future, done (err error))

    unfoldable pub read_write_state :
        TlsStreamState T → TlsStreamState T × Progress (Result R T.IoError)
    unfolding call after_handshake
    read_write_state (handshaking future) =
        let (future, result) = T.poll_unpin future in after_handshake future result
    read_write_state (streaming stream) = call stream

    unfoldable pub poll_read_write : TlsStream T → TlsStream T × Progress (Result R T.IoError)
    unfolding read_write_state
    poll_read_write self =
        let (state, result) = read_write_state self.state in (record self { state = state }, result)

  module _ (f : T.Encrypted → T.Encrypted × Progress (Result (Unit {0}) T.IoError)) where
    unfoldable pub flush_shutdown_state :
        TlsStreamState T → TlsStreamState T × Progress (Result (Unit {0}) T.IoError)
    unfolding call
    flush_shutdown_state (handshaking future) = (handshaking future, done (ok tt))
    flush_shutdown_state (streaming stream) = call f stream

    unfoldable pub poll_flush_shutdown :
        TlsStream T → TlsStream T × Progress (Result (Unit {0}) T.IoError)
    unfolding flush_shutdown_state
    poll_flush_shutdown self =
        let (state, result) = flush_shutdown_state self.state in
        (record self { state = state }, result)

  -- `AsyncRead` and `AsyncWrite` of the stream
  unfoldable pub poll_read :
      List ℕ → TlsStream T → TlsStream T × Progress (Result (List ℕ) T.IoError)
  unfolding poll_read_write
  poll_read buf = poll_read_write (T.poll_read buf)

  unfoldable pub poll_write : List ℕ → TlsStream T → TlsStream T × Progress (Result ℕ T.IoError)
  unfolding poll_read_write
  poll_write buf = poll_read_write (T.poll_write buf)

  unfoldable pub poll_flush : TlsStream T → TlsStream T × Progress (Result (Unit {0}) T.IoError)
  unfolding poll_flush_shutdown
  poll_flush = poll_flush_shutdown T.poll_flush

  unfoldable pub poll_shutdown : TlsStream T → TlsStream T × Progress (Result (Unit {0}) T.IoError)
  unfolding poll_flush_shutdown
  poll_shutdown = poll_flush_shutdown T.poll_shutdown
