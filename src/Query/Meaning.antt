-- ===== src/Query/Meaning.antt =====
-- What the filters of src/query.rs come to.
use mathlib.Core.Path.{subst}
use myth.Prelude.{Option, none, some, Result, ok, err, refl, ◌≡◌, inl, inr, map_ok, Result-cases}
use myth.Text.{Str}
use myth.Http.{Http}
use myth.Request.{Request, RequestState}
use myth.Errors.{no_query, QueryError, box, query_error}
use myth.Outcome.{Outcome, success, error, from_result}
use myth.Future.Sequence.{Completes-poll_ready}
use myth.Tuple.{One, from_inner, into_inner}
use myth.Filter.{Runs}
use myth.Filter.Run.{came_to, handle_success}
use myth.Basic.{uri}
use myth.Query.{optional, parse_query, deserialize}

module _ {H : Http} where
  uri-Runs :
      (r : Request H) (st : RequestState H)
      → Runs uri r st tt (came_to st (success (from_inner r.uri)))
  unfolding uri
  uri-Runs r st = Completes-poll_ready _

  optional-Runs :
      (r : Request H) (st : RequestState H)
      → Runs optional r st tt (came_to st (success (from_inner (H.query r.uri))))
  unfolding optional from_result
  optional-Runs r st =
      handle_success r st st uri (λ u. some (ok (H.query (into_inner u)))) tt _ (uri-Runs r st)

  -- The deserializer's result, as an outcome.
  abbrev pub deserialized : {T : Type 0} → Result T H.UrlencodedError → Outcome H (Unit {0}) (One T)
  deserialized (ok t) = success (from_inner t)
  deserialized (err e) = error (box query_error (QueryError.deserializing e))

  abbrev pub query_outcome :
      {T : Type 0} → (Str → Result T H.UrlencodedError) → Option Str → Outcome H (Unit {0}) (One T)
  query_outcome from_str none = error (box query_error no_query)
  query_outcome from_str (some query) = deserialized (from_str query)

  parsed :
      {T : Type 0} (from_str : Str → Result T H.UrlencodedError) (query : Option Str)
      → from_result (map_ok from_inner (parse_query from_str query)) ≡ query_outcome from_str query
  unfolding from_result
  parsed from_str none = refl
  parsed from_str (some query) = elim (Result-cases (from_str query)) [
    | inl (t, f) ↦ rw f refl
    | inr (x, f) ↦ rw f refl
  ]

  -- `query::deserialize` ends in the error that says so if the request's URI has no query, and else in
  -- what the deserializer makes of the query, its value or its error; the state stays as it was.
  pub deserialize-Runs :
      {T : Type 0} (from_str : Str → Result T H.UrlencodedError) (r : Request H)
      (st : RequestState H)
      → Runs (deserialize from_str) r st tt (came_to st (query_outcome from_str (H.query r.uri)))
  unfolding deserialize
  deserialize-Runs from_str r st =
      subst (λ o. Runs (deserialize from_str) r st tt (came_to st o))
        (parsed from_str (H.query r.uri))
        (handle_success r st st optional (λ option. some (parse_query from_str (into_inner option)))
          tt _ (optional-Runs r st))
