-- ===== src/Tests/Pieces.antt =====
-- Examples for src/errors.rs, src/generics and the futures.
use myth.Prelude.{ℕ, ◌≡◌, refl, none, ◌≢◌, ◌⊎◌, ok, err, [], ◌∷◌, ◌++◌, true}
use myth.Text.{Str, str}
use myth.Http.Sample.{sample}
use myth.Http.{chunk}
use myth.Request.{RequestState, pending, poll_body}
use myth.Request.Body.{IsCounted, content, received, ready, Holds, Answers, poll_body_lem}
use myth.Errors.{TypeId, BoxedFilterError, ErrorOf, redirect, custom, box, downcast}
use myth.Errors.Downcast.{downcast_cases}
use myth.Tuple.{append, remove}
use myth.Tuple.RoundTrip.{remove-append, append-remove}

abbrev five : BoxedFilterError sample
five = box (custom true) 5

abbrev wanted : TypeId sample
wanted = redirect

downcast_cases_example :
    ((w : ErrorOf sample wanted) × (downcast wanted five ≡ ok w) × (five ≡ box wanted w))
    ⊎ ((downcast wanted five ≡ err five) × (five.0 ≢ wanted))
downcast_cases_example = downcast_cases wanted five

remove-append_example :
    remove (Str ∷ []) (ℕ ∷ ℕ ∷ []) (append (Str ∷ []) (ℕ ∷ ℕ ∷ []) (str "a", tt) (1, (2, tt)))
    ≡ ((str "a", tt), (1, (2, tt)))
remove-append_example = remove-append (Str ∷ []) (ℕ ∷ ℕ ∷ []) (str "a", tt) (1, (2, tt))

append-remove_example :
    append
      (Str ∷ [])
      (ℕ ∷ ℕ ∷ [])
      (remove (Str ∷ []) (ℕ ∷ ℕ ∷ []) (str "a", (1, (2, tt)))).0
      (remove (Str ∷ []) (ℕ ∷ ℕ ∷ []) (str "a", (1, (2, tt)))).1
    ≡ (str "a", (1, (2, tt)))
append-remove_example = append-remove (Str ∷ []) (ℕ ∷ ℕ ∷ []) (str "a", (1, (2, tt)))

-- A body that has yielded one chunk, and will yield an empty one and another one.
abbrev under_way : RequestState sample
under_way = record {
  body = pending (chunk [] ∷ chunk (3 ∷ []) ∷ []) ((1 ∷ 2 ∷ []) ∷ []) 2;
  current_path_index = 0;
  on_upgrade = none;
}

poll_body_lem_example :
    IsCounted (poll_body under_way).0.body
    × (content (poll_body under_way).0.body ≡ content under_way.body)
    × Holds (poll_body under_way).0.body (received under_way.body ++ ready under_way.body)
    × Answers ((poll_body under_way).0.body, (poll_body under_way).1)
poll_body_lem_example = poll_body_lem under_way (refl, ((λ e. cc), tt))
