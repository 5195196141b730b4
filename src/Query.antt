-- ===== src/Query.antt =====
-- src/query.rs: the query of the request's URI.
pub mod Meaning
use mathlib.Core.Option
use myth.Prelude.{Option, none, some, Result, ok, err, map_err}
use myth.Text.{Str}
use myth.Http.{Http}
use myth.Errors.{BoxedFilterError, QueryError, no_query, deserializing, box, query_error}
use myth.Future.{async_fn}
use myth.Tuple.{One, into_inner}
use myth.Filter.{Filter}
use myth.Filter.Handle.{handle_filter}
use myth.Basic.{uri}

module _ {H : Http} where
  unfoldable pub optional : Filter H (Unit {0}) (One (Option Str))
  unfolding uri handle_filter
  optional = handle_filter uri (async_fn (λ u. some (ok (H.query (into_inner u)))))

  -- The handler of `deserialize`, with `serde_urlencoded::from_str`
  abbrev pub parse_query :
      {T : Type 0} → (Str → Result T H.UrlencodedError) → Option Str → Result T (BoxedFilterError H)
  parse_query from_str none = err (box query_error no_query)
  parse_query from_str (some query) =
      map_err (λ e. box query_error (QueryError.deserializing e)) (from_str query)

  unfoldable pub deserialize :
      {T : Type 0} → (Str → Result T H.UrlencodedError) → Filter H (Unit {0}) (One T)
  unfolding optional handle_filter
  deserialize from_str =
      handle_filter optional (async_fn (λ option. some (parse_query from_str (into_inner option))))
