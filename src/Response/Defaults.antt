-- ===== src/Response/Defaults.antt =====
-- src/response.rs: the default response of the statuses that the program names.
use myth.Prelude.{◌≡◌, refl, some}
use myth.Http.{Http, NamedStatus, code}
use myth.Response.{Response, default_response, with_status, text_responder}

-- It does not panic, and has that status.
pub default_response-code :
    (H : Http) (s : NamedStatus)
    → (r : Response H) × (default_response (code s) ≡ some r) × (r.status ≡ code s)
unfolding default_response with_status
default_response-code H s =
    let (reason, e) = H.canonical_reason-code s in
    (with_status text_responder (code s) reason, rw e refl, refl)
