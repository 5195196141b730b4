-- ===== src/Tests/Bodies.antt =====
-- Examples for src/body.rs, and for the deserializing filters of src/json.rs.
use myth.Prelude.{ℕ, ◌≤◌, ◌<◌, ◌≡◌, ◌⊎◌, refl, none, some, List, [], ◌∷◌, ok, length, drop, arith}
use myth.Text.{str}
use myth.Text.Numbers.{decimal}
use myth.Http.{content_length, content_type, post, chunk, wait}
use myth.Http.Sample.{sample, KnownHeader-discrete}
use mathlib.Core.Logic.{ite}
use myth.Request.{Request, RequestState, pending, header}
use myth.Outcome.{RequestOutcome}
use myth.Tuple.{One}
use myth.Filter.{Runs}
use myth.Filter.Run.{came_to}
use myth.Body.Buffer.{BytesBuf, advance, read}
use myth.Body.Buffer.Meaning.{IsWhole, unread, read_bytes, advance_lem, read_lem}
use myth.Body.Take.{all}
use myth.Body.Take.Meaning.{TakesBody, all-Runs}
use myth.Body.Limit.{content_length_limit}
use myth.Body.Limit.Meaning.{within, content_length_limit_lem}
use myth.Content.{Format, json, request}
use myth.Content.Meaning.{Answers, request-Runs}
use myth.Tests.CopySlice.{copied, copied-FillsSlice}

abbrev three_bytes : BytesBuf
three_bytes = record { bytes = (1 ∷ 2 ∷ []) ∷ (3 ∷ []) ∷ []; len = 3 }

three_bytes-IsWhole : IsWhole three_bytes
three_bytes-IsWhole = (refl, ((λ e. cc), ((λ e. cc), tt)))

-- Past the first chunk, and into the second one.
advance_test : advance 2 three_bytes ≡ some (record { bytes = (3 ∷ []) ∷ []; len = 1 })
unfolding advance
advance_test = refl

advance_lem_example :
    ((length (unread three_bytes) < 2) × (advance 2 three_bytes ≡ none))
    ⊎ ((2 ≤ length (unread three_bytes))
        × ((self' : BytesBuf) × (advance 2 three_bytes ≡ some self')
            × IsWhole self'
            × (unread self' ≡ drop 2 (unread three_bytes))))
advance_lem_example = advance_lem 2 three_bytes three_bytes-IsWhole

read_lem_example :
    (self' : BytesBuf) × (read copied (0 ∷ 0 ∷ []) three_bytes
      ≡ some (
        (read_bytes (0 ∷ 0 ∷ []) (unread three_bytes)).0,
        (read_bytes (0 ∷ 0 ∷ []) (unread three_bytes)).1,
        self',
      ))
    × IsWhole self'
    × (unread self' ≡ (read_bytes (0 ∷ 0 ∷ []) (unread three_bytes)).2)
read_lem_example = read_lem copied copied-FillsSlice (0 ∷ 0 ∷ []) three_bytes three_bytes-IsWhole

-- `POST /` with a JSON body of five bytes
abbrev post_request : Request sample
post_request = record {
  method = post;
  uri = (str "/", none);
  version = tt;
  headers = λ n.
      ite (KnownHeader-discrete n content_length) (decimal 5 ∷ [])
        (ite (KnownHeader-discrete n content_type) (str "application/json" ∷ []) []);
  remote_addr = 0;
}

-- The body comes in two chunks, with a wait between them.
abbrev waiting_body : RequestState sample
waiting_body = record {
  body = pending (chunk (1 ∷ 2 ∷ []) ∷ wait ∷ chunk (3 ∷ 4 ∷ 5 ∷ []) ∷ []) [] 0;
  current_path_index = 0;
  on_upgrade = none;
}

all-Runs_example :
    (x : RequestOutcome sample (Unit {0}) (One BytesBuf)) × Runs all post_request waiting_body tt
      (some x)
    × TakesBody waiting_body x
all-Runs_example = all-Runs post_request waiting_body (refl, tt) tt

content_length_limit_lem_example :
    Runs
      (content_length_limit 4)
      post_request
      waiting_body
      tt
      (came_to waiting_body (within 4 (some 5)))
unfolding header
content_length_limit_lem_example =
    content_length_limit_lem post_request waiting_body 4 (some 5) (refl, omega arith)

-- A format whose values are the bytes themselves.
abbrev bytes_format : Format sample (List ℕ) ℕ
bytes_format = json (λ buf. ok (unread buf))

request-Runs_example :
    (x : RequestOutcome sample (Unit {0}) (One (List ℕ))) × Runs
      (request bytes_format)
      post_request
      waiting_body
      tt
      (some x)
    × Answers bytes_format ok post_request waiting_body x
request-Runs_example =
    request-Runs bytes_format ok post_request waiting_body (λ buf w. refl) (refl, tt) tt
