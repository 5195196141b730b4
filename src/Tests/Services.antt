-- ===== src/Tests/Services.antt =====
-- Examples for the filters of headers, queries and dates, for responses, and for whole services.
use myth.Prelude.{ℕ, ◌≡◌, ◌≢◌, refl, arith, Option, none, some, List, [], Result, ok}
use myth.Text.{Str, str}
use myth.Http.{get, post}
use myth.Http.Sample.{sample}
use myth.Response.{Response, default, text_responder, text_response}
use myth.Errors.{BoxedFilterError, box, content_length_error, forward_param}
use myth.Errors.Answer.{Custom, error_response, TellsError, error_response-TellsError}
use myth.Outcome.{Outcome, RequestOutcome, success}
use myth.Forward.Tried.{Tried, one, either, combined, asked}
use myth.Forward.Answer.{forwarding_response, Answers, forwarding_response_lem}
use myth.Future.{Completes}
use myth.Tuple.{One, from_inner}
use myth.Filter.{Filter, Runs}
use myth.Filter.Run.{came_to}
use myth.Filter.And.{and_filter}
use myth.Filter.Raises.{Raises}
use myth.Query.{deserialize}
use myth.Query.Meaning.{query_outcome, deserialize-Runs}
use myth.Security.Hsts.{Config, preload, hsts}
use myth.Security.Hsts.Meaning.{IsSecured, Reads, hsts-IsSecured}
use myth.Method.{of_method}
use myth.Path.{param}
use myth.Safety.{Built, and_built, of_method_built, param_built}
use myth.Safety.Raises.{Built-Raises}
use myth.Service.{HyperRequest, from_hyper, outcome_response, handle_requests, poll_response}
use myth.Service.Meaning.{handle_requests_lem}
use myth.TestRequest.{
  RequestBuilder, checks_response, test_start, test_poll, into_args, match_outcome,
}
use myth.TestRequest.Agree.{sent, IsSeen, response-IsSeen}
use myth.Basic.{cloning}
use myth.Basic.Meaning.{cloning-Runs}
use myth.Future.Sequence.{continue-Completes}
use myth.Tests.{get_request, state_at, nothing_and_text}

-- A filter for `POST`, or one that does not match, or one for `GET`.
abbrev post_or_get : Tried
post_or_get = either (either (one (some post)) (one none)) (one (some get))

forwarding_response_lem_example :
    Answers sample (forwarding_response (combined post_or_get)) (asked post_or_get)
forwarding_response_lem_example = forwarding_response_lem sample post_or_get

abbrev no_custom : Custom sample
no_custom = λ t e. none

error_response-TellsError_example :
    TellsError (error_response no_custom (box content_length_error 7))
error_response-TellsError_example = error_response-TellsError no_custom content_length_error 7 tt

-- A deserializer that takes every text.
abbrev takes_text : Str → Result Str ℕ
takes_text s = ok s

deserialize-Runs_example :
    Runs
      (deserialize takes_text)
      get_request
      (state_at 0)
      tt
      (came_to (state_at 0) (query_outcome takes_text (sample.query get_request.uri)))
deserialize-Runs_example = deserialize-Runs takes_text get_request (state_at 0)

abbrev one_year : Config
one_year = record { max_age = 31536000; directives = preload }

abbrev plain_response : Response sample
plain_response = default

hsts-IsSecured_example :
    (F : Filter sample (One (Response sample)) (One (Response sample))) × (response' : Response
      sample)
    × (text : Str) × (hsts one_year ≡ some F)
    × Runs F get_request
        (state_at 0)
        (from_inner plain_response)
        (came_to (state_at 0) (success (from_inner response')))
    × IsSecured plain_response response' text
    × Reads one_year text
hsts-IsSecured_example =
    hsts-IsSecured one_year get_request (state_at 0) plain_response (omega arith)

-- `GET` with a segment that is taken as it is
abbrev get_text : Filter sample (Unit {0}) (One Str)
get_text = and_filter (of_method get) (param some) nothing_and_text

abbrev get_text_built : Built (Unit {0}) (One Str) get_text
get_text_built = and_built nothing_and_text (of_method_built get) (param_built some)

-- An error that is not the one of `param`.
abbrev IsOther : BoxedFilterError sample → Type 0
IsOther e = e.0 ≢ forward_param

Built-Raises_example : Raises IsOther get_request get_text
Built-Raises_example = Built-Raises IsOther get_request get_text_built (tt, tt)

abbrev client_request : HyperRequest sample
client_request = record {
  method = get;
  uri = (str "/users", none);
  version = tt;
  headers = λ n. [];
  on_upgrade = none;
  body = [];
}

-- `into_response` of a text, which does not panic
abbrev text_into_response : Str → Option (Response sample)
text_into_response s = some (text_responder.into_response s)

handle_requests_lem_example :
    (response : Response sample) × (x : RequestOutcome sample (Unit {0}) (One Str)) × Completes
      (poll_response no_custom text_into_response get_text)
      (handle_requests no_custom text_into_response get_text client_request 0)
      (some response)
    × Runs get_text (from_hyper client_request 0).0 (from_hyper client_request 0).1 tt (some x)
    × (outcome_response no_custom text_into_response x.outcome ≡ some response)
handle_requests_lem_example =
    handle_requests_lem no_custom text_into_response get_text client_request 0 get_text_built tt
      (λ s. (_, refl)) (tt, tt) (tt, tt)

-- A test of a filter that always gives the same text.
abbrev hello : Filter sample (Unit {0}) (One Str)
hello = cloning (str "hi")

abbrev bytes_of : sample.Body → Option (List ℕ)
bytes_of body = some []

abbrev builder : RequestBuilder sample (Unit {0})
builder = record {
  method = get;
  uri = (str "/", none);
  version = tt;
  headers = λ n. [];
  remote_addr = 0;
  body = [];
  input = tt;
}

-- The status, the headers and the bytes that it shows.
abbrev hello_response : Response sample
hello_response = text_response (str "hi")

abbrev shown : ℕ × sample.HeaderMap × List ℕ
shown = (hello_response.status, hello_response.headers, [])

hello_done :
    Completes
      (test_poll hello (checks_response bytes_of text_into_response))
      (test_start hello (checks_response bytes_of text_into_response) builder)
      (some shown)
unfolding test_poll test_start into_args checks_response match_outcome
hello_done =
    (continue-Completes hello.poll (λ o. checks_response bytes_of text_into_response o.outcome)
        (test_start hello (checks_response bytes_of text_into_response) builder) (some shown)).1
      (_, cloning-Runs (into_args builder).0 (into_args builder).1 (str "hi"), refl)

response-IsSeen_example :
    (response : Response sample) × Completes
      (poll_response no_custom text_into_response hello)
      (handle_requests no_custom text_into_response hello (sent builder) builder.remote_addr)
      (some response)
    × IsSeen no_custom text_into_response bytes_of hello shown response
response-IsSeen_example =
    response-IsSeen no_custom text_into_response bytes_of hello builder shown hello_done
