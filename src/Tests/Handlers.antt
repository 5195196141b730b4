-- ===== src/Tests/Handlers.antt =====
-- Examples for the combinators of src/filter that call a handler or change what a filter is given.
use mathlib.Core.Option
use myth.Prelude.{◌≡◌, ◌↔◌, Option, ok, some, [], ◌∷◌}
use myth.Text.{Str, str}
use myth.Http.{get}
use myth.Http.Sample.{sample}
use myth.Outcome.{RequestOutcome}
use myth.Forward.{Forwarding, not_found}
use myth.Errors.{Redirect, redirect, BoxedFilterError, recover_type}
use myth.Future.{AsyncTryFn, async_fn}
use myth.Tuple.{append, Append, One, from_inner, into_inner}
use myth.Tuple.RoundTrip.{tuple_append}
use myth.Filter.{Runs}
use myth.Filter.Handle.{handle_filter}
use myth.Filter.Handle.Meaning.{handle-Runs, HandleSpec}
use myth.Filter.Recover.{recover_filter}
use myth.Filter.Recover.Meaning.{recover-Runs, RecoverSpec}
use myth.Filter.RecoverForward.{recover_forward_filter}
use myth.Filter.RecoverForward.Meaning.{recover_forward-Runs, ForwardSpec}
use myth.Filter.Untuple.{untuple_filter}
use myth.Filter.Untuple.Meaning.{taken_out, untuple-Runs}
use myth.Filter.Receive.{receive_filter}
use myth.Filter.Receive.Meaning.{receive-Runs, put_front}
use myth.Filter.Dynamic.{dynamic, dynamic-Runs}
use myth.Method.{of_method}
use myth.Path.{param_str, end}
use myth.Tests.{get_request, state_at, succeeded}

-- A handler that gives back its argument, and one that calls a redirect no match.
abbrev echo : AsyncTryFn (One Str) Str (BoxedFilterError sample)
echo = async_fn (λ args. some (ok (into_inner args)))

abbrev to_text : AsyncTryFn (One Redirect) Str (BoxedFilterError sample)
to_text = async_fn (λ args. some (ok (str "moved")))

abbrev no_match : AsyncTryFn (One Redirect) Forwarding (BoxedFilterError sample)
no_match = async_fn (λ args. some (ok not_found))

abbrev text_and_nothing : Append (One Str) (Unit {0})
text_and_nothing = tuple_append (Str ∷ []) []

abbrev text : One Str
text = from_inner (str "users")

handle-Runs_example :
    Runs (handle_filter param_str echo) get_request (state_at 0) tt (succeeded 6 text) ↔ (
      (o₁ : Option (RequestOutcome sample (Unit {0}) (One Str))) × Runs param_str get_request
        (state_at 0)
        tt
        o₁
      × HandleSpec param_str echo get_request o₁ (succeeded 6 text))
handle-Runs_example = handle-Runs param_str echo get_request (state_at 0) tt (succeeded 6 text)

recover-Runs_example :
    Runs
      (recover_filter param_str to_text (recover_type redirect))
      get_request
      (state_at 0)
      tt
      (succeeded 0 text)
    ↔ ((o₁ : Option (RequestOutcome sample (Unit {0}) (One Str))) × Runs param_str get_request
          (state_at 0)
          tt
          o₁
        × RecoverSpec param_str to_text (recover_type redirect) get_request 0 o₁ (succeeded 0 text))
recover-Runs_example =
    recover-Runs param_str to_text (recover_type redirect) get_request (state_at 0) tt
      (succeeded 0 text)

recover_forward-Runs_example :
    Runs
      (recover_forward_filter end no_match (recover_type redirect))
      get_request
      (state_at 8)
      tt
      (succeeded 8 tt)
    ↔ ((o₁ : Option (RequestOutcome sample (Unit {0}) (Unit {0}))) × Runs end get_request
          (state_at 8)
          tt
          o₁
        × ForwardSpec end no_match (recover_type redirect) get_request o₁ (succeeded 8 tt))
recover_forward-Runs_example =
    recover_forward-Runs end no_match (recover_type redirect) get_request (state_at 8)
      (succeeded 8 tt)

untuple-Runs_example :
    Runs (untuple_filter param_str) get_request (state_at 0) tt (succeeded 6 (str "users")) ↔ (
      (o₁ : Option (RequestOutcome sample (Unit {0}) (One Str))) × Runs param_str get_request
        (state_at 0)
        tt
        o₁
      × (succeeded 6 (str "users") ≡ Option.map taken_out o₁))
untuple-Runs_example =
    untuple-Runs param_str get_request (state_at 0) tt (succeeded 6 (str "users"))

receive-Runs_example :
    Runs
      (receive_filter (of_method get) text_and_nothing text_and_nothing)
      get_request
      (state_at 6)
      text
      (succeeded 6 text)
    ↔ ((o₁ : Option (RequestOutcome sample (Unit {0}) (Unit {0}))) × Runs
          (of_method get)
          get_request
          (state_at 6)
          tt
          o₁
        × (succeeded 6 text
            ≡ Option.map
                (put_front (of_method get) text_and_nothing text_and_nothing get_request text)
                o₁))
unfolding append
receive-Runs_example =
    receive-Runs (of_method get) text_and_nothing text_and_nothing get_request (state_at 6) text tt
      (succeeded 6 text)

dynamic-Runs_example :
    Runs (dynamic param_str) get_request (state_at 0) tt (succeeded 6 text)
    ↔ Runs param_str get_request (state_at 0) tt (succeeded 6 text)
dynamic-Runs_example = dynamic-Runs param_str get_request (state_at 0) tt (succeeded 6 text)
