-- ===== src/Tests/Multipart.antt =====
-- An example for src/form/multipart.rs.
use mathlib.Core.Logic.{ite}
use myth.Prelude.{ℕ, ◌≡◌, refl, none, some, List, [], ◌∷◌, ok}
use myth.Text.{str}
use myth.Http.{content_type, post, chunk, wait}
use myth.Http.Sample.{sample, KnownHeader-discrete}
use myth.Request.{Request, RequestState, pending}
use myth.Outcome.{RequestOutcome}
use myth.Tuple.{One}
use myth.Filter.{Runs}
use myth.Body.Buffer.Meaning.{unread}
use myth.Content.Multipart.{Parser, multipart, next}
use myth.Content.Multipart.Meaning.{Answers, multipart-Runs}

-- A parser of parts of one byte each.
abbrev one_byte_parts : Parser sample
one_byte_parts = record {
  boundary = λ mime. some (str "xyz");
  Multipart = List ℕ;
  IoError = Unit;
  with_body = λ buf boundary. unread buf;
  FieldHeaders = Unit;
  name = λ headers. str "part";
  filename = λ headers. none;
  content_type = λ headers. none;
  read_entry = λ bytes. elim bytes [ [] ↦ ([], ok none) | b ∷ rest ↦ (b ∷ rest, ok (some tt)) ];
  read_to_end = λ bytes. elim bytes [ [] ↦ ([], ok []) | b ∷ rest ↦ (rest, ok (b ∷ [])) ];
}

-- `POST /` with two parts
abbrev form_request : Request sample
form_request = record {
  method = post;
  uri = (str "/", none);
  version = tt;
  headers = λ n. ite (KnownHeader-discrete n content_type) (str "multipart/form-data" ∷ []) [];
  remote_addr = 0;
}

abbrev form_state : RequestState sample
form_state = record {
  body = pending (chunk (1 ∷ []) ∷ wait ∷ chunk (2 ∷ []) ∷ []) [] 0;
  current_path_index = 0;
  on_upgrade = none;
}

multipart-Runs_example :
    (x : RequestOutcome sample (Unit {0}) (One (List ℕ))) × Runs
      (multipart one_byte_parts)
      form_request
      form_state
      tt
      (some x)
    × Answers one_byte_parts form_request form_state x
multipart-Runs_example = multipart-Runs one_byte_parts form_request form_state (refl, tt) tt

-- The first part.
next_test : next one_byte_parts (1 ∷ 2 ∷ []) ≡ (
  2 ∷ [],
  some
      (ok (record { name = str "part"; filename = none; content_type = none; part_data = 1 ∷ [] })),
)
unfolding next
next_test = refl
