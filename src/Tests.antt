-- ===== src/Tests.antt =====
-- Examples at concrete requests: the requests, states and filters that they share.
mod Combinators
mod Handlers
mod Paths
mod Pieces
mod Cors
mod CopySlice
mod Bodies
mod Multipart
mod Transport
mod Services
use myth.Prelude.{ℕ, refl, Option, none, some, List, [], ◌∷◌}
use myth.Text.{Str, str, len}
use myth.Http.{Http, get, post}
use myth.Http.Sample.{sample}
use myth.Request.{Request, RequestState, pending}
use myth.Request.Paths.{InPath}
use myth.Outcome.{RequestOutcome, success}
use myth.Tuple.{Append, One, from_inner}
use myth.Tuple.RoundTrip.{tuple_append}
use myth.Filter.{Filter}
use myth.Filter.And.{and_filter}
use myth.Filter.Or.{or_filter}
use myth.Method.{of_method}
use myth.Path.{param_str}

-- `GET /users/7`
abbrev pub get_request : Request sample
get_request = record {
  method = get;
  uri = (str "/users/7", none);
  version = tt;
  headers = λ n. [];
  remote_addr = 0;
}

-- The state of a request whose path index stands after the given number of bytes.
abbrev pub state_at : ℕ → RequestState sample
state_at index = record { body = pending [] [] 0; current_path_index = index; on_upgrade = none }

pub at_start : InPath get_request (state_at 0)
unfolding len
at_start = record { before = []; after = str "/users/7"; whole = refl; at = refl }

abbrev pub nothing_and_text : Append (Unit {0}) (One Str)
nothing_and_text = tuple_append [] (Str ∷ [])

abbrev pub get_or_post : Filter sample (Unit {0}) (Unit {0})
get_or_post = or_filter (of_method get) (of_method post)

abbrev pub get_and_param : Filter sample (Unit {0}) (One Str)
get_and_param = and_filter (of_method get) param_str nothing_and_text

-- An outcome of success that leaves the path index at the given place.
abbrev pub succeeded : {I S : Type 0} → ℕ → S → Option (RequestOutcome sample I S)
succeeded index s = some (record { request_state = state_at index; outcome = success s })
