-- ===== src/Body/Limit.antt =====
-- src/body.rs: `content_length_limit`.
pub mod Meaning
use mathlib.Core.Option
use myth.Prelude.{ℕ, Option, none, some, ◌>>=◌, List, [], ◌∷◌, Result, ok, err, leb, if◌then◌else◌}
use myth.Text.Numbers.{parse_usize}
use myth.Http.{Http}
use myth.Http
use myth.Errors.{BoxedFilterError, box, content_length_error}
use myth.Future.{async_fn}
use myth.Tuple.{Tuple, One, from_inner}
use myth.Tuple.RoundTrip.{tuple_append}
use myth.Filter.{Filter}
use myth.Filter.And.{and_filter}
use myth.Filter.Handle.{handle_filter}
use myth.Filter.Untuple.{untuple_filter}
use myth.Header.{value_optional}
use myth.Basic.{cloning}

module _ {H : Http} where
  -- The handler of `content_length_limit`; `none` is the panic of its `expect`.
  unfoldable pub check_length :
      Tuple (Option H.HeaderValue ∷ ℕ ∷ []) → Option (Result (Unit {0}) (BoxedFilterError H))
  unfolding parse_usize
  check_length (none, limit) = some (ok tt)
  check_length (some value, limit) = do
    length ← H.to_str value >>= parse_usize
    some (if leb length limit.0 then ok tt else err (box content_length_error length))

  unfoldable pub content_length_limit : ℕ → Filter H (Unit {0}) (Unit {0})
  unfolding value_optional cloning and_filter handle_filter untuple_filter check_length
  content_length_limit limit = untuple_filter (
      handle_filter
        (and_filter (value_optional (H.known Http.content_length)) (cloning limit)
          (tuple_append (Option H.HeaderValue ∷ []) (ℕ ∷ [])))
        (async_fn check_length))
