-- ===== src/Tests/Combinators.antt =====
-- Examples for src/filter.
use myth.Prelude.{◌≡◌, ◌↔◌, Option, refl, some, [], ◌∷◌}
use myth.Text.{Str, str, slice_from, slice_to}
use myth.Http.{get, post, chunk, wait}
use myth.Http.Sample.{sample}
use myth.Outcome.{RequestOutcome, map_request_outcome}
use myth.Future.{drive}
use myth.Future.Sequence.{drive_sound}
use myth.Tuple.{One, from_inner, append, append_one}
use myth.Filter.{Filter, Runs, run_for}
use myth.Request.{RequestState, pending}
use myth.Request.Body.{IsEnding}
use myth.Body.Buffer.{BytesBuf}
use myth.Body.Take.{all}
use myth.Tuple.RoundTrip.{tuple_append}
use myth.Filter.And.{and_filter}
use myth.Filter.And.Meaning.{and-Runs, AndSpec}
use myth.Filter.Or.Meaning.{or-Runs, OrSpec}
use myth.Method.{of_method}
use myth.Path.{param_str, slash_index}
use myth.Request.Paths.{InPath}
use myth.Safety.Total.{Built-Runs}
use myth.Safety.{Built-InPath, and_built, of_method_built, param_str_built, body_built}
use myth.Tests.{
  get_request, state_at, at_start, nothing_and_text, get_or_post, get_and_param, succeeded,
}

get_and_param_test :
    run_for get_and_param get_request 1 (state_at 0) tt
    ≡ some (succeeded 6 (from_inner (str "users")))
unfolding of_method param_str drive and_filter slice_from slice_to slash_index map_request_outcome
    append append_one
get_and_param_test = refl

Built-InPath_example :
    (x : RequestOutcome sample (Unit {0}) (One Str)) × (succeeded 6 (from_inner (str "users"))
      ≡ some x)
    × InPath get_request x.request_state
Built-InPath_example =
    Built-InPath get_and_param get_request (state_at 0) tt (succeeded 6 (from_inner (str "users")))
      (and_built nothing_and_text (of_method_built get) param_str_built) at_start
      (drive_sound get_and_param.poll 1 (get_and_param.execute get_request (state_at 0) tt)
        (succeeded 6 (from_inner (str "users"))) get_and_param_test)

or-Runs_example : Runs get_or_post get_request (state_at 0) tt (succeeded 0 tt) ↔ (
    (o₁ : Option (RequestOutcome sample (Unit {0}) (Unit {0}))) × Runs
      (of_method get)
      get_request
      (state_at 0)
      tt
      o₁
    × OrSpec (of_method get) (of_method post) get_request 0 o₁ (succeeded 0 tt))
or-Runs_example =
    or-Runs (of_method get) (of_method post) get_request (state_at 0) tt (succeeded 0 tt)

and-Runs_example :
    Runs get_and_param get_request (state_at 0) tt (succeeded 6 (from_inner (str "users"))) ↔ (
      (o₁ : Option (RequestOutcome sample (Unit {0}) (Unit {0}))) × Runs
        (of_method get)
        get_request
        (state_at 0)
        tt
        o₁
      × AndSpec
          (of_method get)
          param_str
          nothing_and_text
          get_request
          tt
          o₁
          (succeeded 6 (from_inner (str "users"))))
and-Runs_example =
    and-Runs (of_method get) param_str nothing_and_text get_request (state_at 0) tt
      (succeeded 6 (from_inner (str "users")))

-- The body of a `GET` request, which comes after a wait.
abbrev get_and_body : Filter sample (Unit {0}) (One BytesBuf)
get_and_body = and_filter (of_method get) all (tuple_append [] (BytesBuf ∷ []))

abbrev with_chunk : RequestState sample
with_chunk = record (state_at 0) { body = pending (wait ∷ chunk (7 ∷ []) ∷ []) [] 0 }

Built-Runs_example :
    (x : RequestOutcome sample (Unit {0}) (One BytesBuf)) × Runs get_and_body get_request with_chunk
      tt
      (some x)
    × InPath get_request x.request_state
    × IsEnding x.request_state.body
Built-Runs_example =
    Built-Runs get_and_body get_request with_chunk tt
      (and_built (tuple_append [] (BytesBuf ∷ [])) (of_method_built get) body_built) (tt, tt)
      (record {
        before = at_start.before;
        after = at_start.after;
        whole = at_start.whole;
        at = at_start.at;
      })
      tt
