-- ===== src/Errors.antt =====
-- src/errors.rs: boxed errors of any type, and taking them out again at one type.
pub mod Downcast
pub mod Answer
use mathlib.Core.Path.{subst}
use myth.Prelude.{◌≡◌, ℕ, Option, Result, ok, err}
use myth.Text.{Str}
use myth.Http.{Http}
use myth.Request.{BodyError}

-- `path::Redirect` of src/path.rs
pub record Redirect : Type 0 where
  pub location : Str

-- `json::Error` of src/json.rs and `form::urlencoded::Error` of src/form/urlencoded.rs, whose
-- constructors are the same; `E` is the error of the deserializer.
pub data ContentError (H : Http) (E : Type 0) : Type 0 where
  no_content_type : ContentError H E
  wrong_content_type : H.HeaderValue → ContentError H E
  reading : BodyError H → ContentError H E
  deserializing : E → ContentError H E

-- `form::multipart::Error` of src/form/multipart.rs
pub data MultipartError (H : Http) : Type 0 where
  no_content_type : MultipartError H
  wrong_content_type : H.HeaderValue → MultipartError H
  reading : BodyError H → MultipartError H

-- `query::DeserializeError` of src/query.rs
pub data QueryError (H : Http) : Type 0 where
  no_query : QueryError H
  deserializing : H.UrlencodedError → QueryError H

-- The `TypeId`s of the crate's own error types, and those of the application's.
pub data TypeId (H : Http) : Type 0 where
  redirect forward_param header_missing body_error content_length_error : TypeId H
  invalid_if_unmodified_since json_error urlencoded_error multipart_error query_error : TypeId H
  custom : H.ErrorId → TypeId H

pub TypeId-discrete : (H : Http) → Discrete (TypeId H)
TypeId-discrete H = hlevel H.ErrorId-discrete

-- The values of the error type that a `TypeId` stands for.
abbrev pub ErrorOf : (H : Http) → TypeId H → Type 0
ErrorOf H redirect = Redirect
ErrorOf H forward_param = Unit
ErrorOf H header_missing = Unit
ErrorOf H body_error = BodyError H
ErrorOf H content_length_error = ℕ
ErrorOf H invalid_if_unmodified_since = H.HeaderValue
ErrorOf H json_error = ContentError H H.JsonError
ErrorOf H urlencoded_error = ContentError H H.UrlencodedError
ErrorOf H multipart_error = MultipartError H
ErrorOf H query_error = QueryError H
ErrorOf H (custom e) = H.ErrorValue e

-- `Box<dyn FilterError>`: a value with its type.
abbrev pub BoxedFilterError : Http → Type 0
BoxedFilterError H = (t : TypeId H) × ErrorOf H t

module _ {H : Http} where
  -- `From<T> for BoxedFilterError`
  abbrev pub box : (t : TypeId H) → ErrorOf H t → BoxedFilterError H
  box t value = (t, value)

  downcast_dec :
      (t u : TypeId H) → ErrorOf H u → Dec (u ≡ t) → Result (ErrorOf H t) (BoxedFilterError H)
  downcast_dec t u value (yes same) = ok (subst (ErrorOf H) same value)
  downcast_dec t u value (no _) = err (u, value)

  unfoldable pub downcast :
      (t : TypeId H) → BoxedFilterError H → Result (ErrorOf H t) (BoxedFilterError H)
  unfolding downcast_dec
  downcast t (u, value) = downcast_dec t u value (TypeId-discrete H u t)

-- `Recoverable`: the errors of one type, or all of them.
pub record Recoverable (H : Http) (E : Type 0) : Type 0 where
  pub recover : BoxedFilterError H → Result E (BoxedFilterError H)

abbrev pub recover_type : {H : Http} (t : TypeId H) → Recoverable H (ErrorOf H t)
recover_type t = record { recover = downcast t }

abbrev pub recover_any : {H : Http} → Recoverable H (BoxedFilterError H)
recover_any = record { recover = λ e. ok e }
