-- ===== src/Basic.antt =====
-- src/basic/mod.rs, src/uri.rs, src/version.rs, src/addr.rs: the filters that look at no path.
pub mod Meaning
use myth.Prelude.{Option, some, ok}
use myth.Http.{Http}
use myth.Outcome.{success, forward, RequestOutcome}
use myth.Forward.{not_found}
use myth.Future.{poll_ready, async_fn}
use myth.Tuple.{One, from_inner}
use myth.Filter.{Filter}
use myth.Filter.Ready.{ready_filter}
use myth.Filter.Handle.{handle_filter}

module _ {H : Http} where
  unfoldable pub any : Filter H (Unit {0}) (Unit {0})
  unfolding ready_filter
  any = ready_filter (λ request st. some (st, success tt))

  unfoldable pub never : {T : Type 0} → Filter H (Unit {0}) (One T)
  unfolding ready_filter
  never = ready_filter (λ request st. some (st, forward tt not_found))

  -- A clone of a value is the value.
  unfoldable pub cloning : {T : Type 0} → T → Filter H (Unit {0}) (One T)
  unfolding any handle_filter
  cloning t = handle_filter any (async_fn (λ no_args. some (ok t)))

  -- `BorrowingFilter`
  unfoldable pub borrowing : {T : Type 0} → T → Filter H (Unit {0}) (One T)
  unfolding poll_ready
  borrowing {T} t = record {
    Future = Option (RequestOutcome H (Unit {0}) (One T));
    execute =
        λ request st input. some (record { request_state = st; outcome = success (from_inner t) });
    poll = poll_ready;
  }

  -- `UriFilter`
  unfoldable pub uri : Filter H (Unit {0}) (One H.Uri)
  unfolding poll_ready
  uri = record {
    Future = Option (RequestOutcome H (Unit {0}) (One H.Uri));
    execute = λ request st input.
        some (record { request_state = st; outcome = success (from_inner request.uri) });
    poll = poll_ready;
  }

  unfoldable pub version : Filter H (Unit {0}) (One H.Version)
  unfolding ready_filter
  version = ready_filter (λ request st. some (st, success (from_inner request.version)))

  unfoldable pub remote_addr : Filter H (Unit {0}) (One H.SocketAddr)
  unfolding ready_filter
  remote_addr = ready_filter (λ request st. some (st, success (from_inner request.remote_addr)))
