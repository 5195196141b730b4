-- ===== src/Tests/Paths.antt =====
-- Examples for src/path.rs.
use myth.Prelude.{◌≡◌, ◌≢◌, ◌↔◌, ◌⊎◌, Option, none, some, [], if◌then◌else◌, All}
use myth.Text.{Str, str, str_eq, split}
use myth.Text.Split.{join}
use myth.Http.Sample.{sample}
use myth.Request.{full_path}
use myth.Outcome.{success, error, forward}
use myth.Forward.{not_found}
use myth.Errors.{box, redirect}
use myth.Path.{segment_of, decoded_segment, end_outcome, sanitize_path}
use myth.Path.Segments.{Found, segment_of_lem}
use myth.Path.Consume.{IsExhausted, NoMatch, Match, decoded_segment_cases, end_outcome_cases}
use myth.Path.Sanitize.{IsAccepted, filled_segments, sanitize_path_iff}
use myth.Tests.{get_request, state_at, at_start}

segment_of_lem_example :
    ((segment_of (str "/users/7") ≡ some none)
      × ((str "/users/7" ≡ []) ⊎ (str "/users/7" ≡ str "/")))
    ⊎ (Found (str "/users/7") × (str "/users/7" ≢ []) × (str "/users/7" ≢ str "/"))
segment_of_lem_example = segment_of_lem (str "/users/7")

abbrev is_users : Str → Option (Unit {0})
is_users found = if str_eq (str "users") found then some tt else none

decoded_segment_cases_example :
    ((decoded_segment is_users get_request (state_at 0) ≡ some (state_at 0, forward tt not_found))
      × NoMatch is_users get_request (state_at 0) at_start.after)
    ⊎ Match is_users get_request (state_at 0) at_start.after
decoded_segment_cases_example = decoded_segment_cases is_users get_request (state_at 0) at_start

end_outcome_cases_example :
    (IsExhausted (full_path get_request)
      × (end_outcome get_request (state_at 0) ≡ some (state_at 0, success tt)))
    ⊎ ((¬ IsExhausted (full_path get_request))
        × (at_start.after ≡ [])
        × (end_outcome get_request (state_at 0) ≡ some (state_at 0, success tt)))
    ⊎ ((¬ IsExhausted (full_path get_request))
        × (at_start.after ≡ str "/")
        × (end_outcome get_request (state_at 0)
            ≡ some (state_at 0, error (box redirect (record { location = at_start.before })))))
    ⊎ ((¬ IsExhausted (full_path get_request))
        × (¬ IsExhausted at_start.after)
        × (end_outcome get_request (state_at 0) ≡ some (state_at 0, forward tt not_found)))
end_outcome_cases_example = end_outcome_cases get_request (state_at 0) at_start

sanitize_path_iff_example : (sanitize_path sample (str "a//b.txt") ≡ some (str "a/b.txt")) ↔ (
    (decoded : Str) × (sample.decode_utf8 (str "a//b.txt") ≡ some decoded)
    × All IsAccepted (split b'/' decoded)
    × (str "a/b.txt" ≡ join b'/' (filled_segments (split b'/' decoded))))
sanitize_path_iff_example = sanitize_path_iff sample (str "a//b.txt") (str "a/b.txt")
