-- ===== src/Content.antt =====
-- src/json.rs and src/form/urlencoded.rs: the filters that deserialize the body of a request. The two
-- files have the same code, but for the content type, the error type and the deserializer.
pub mod Meaning
pub mod Multipart
use mathlib.Core.Option
use myth.Prelude.{
  ℕ, Bool, true, false, Option, none, some, List, [], ◌∷◌, Result, ok, err, map_err, ◌&&◌,
  if◌then◌else◌,
}
use myth.Text.{Str, str}
use myth.Http.{Http}
use myth.Http
use myth.Errors.{
  BoxedFilterError, ContentError, no_content_type, wrong_content_type, reading, deserializing, box,
  body_error, json_error, urlencoded_error, recover_type,
}
use myth.Response.{Response, Responder, response_responder, with_header}
use myth.Future.{async_fn}
use myth.Tuple.{Tuple, One, into_inner, from_inner}
use myth.Tuple.RoundTrip.{tuple_append}
use myth.Filter.{Filter}
use myth.Filter.And.{and_filter}
use myth.Filter.Handle.{handle_filter}
use myth.Filter.Recover.{recover_filter}
use myth.Filter.Untuple.{untuple_filter}
use myth.Header.{content_type}
use myth.Body.Buffer.{BytesBuf}
use myth.Body.Take.{all}

-- A content type and how a body of it is deserialized: its subtype, the error type and `from_reader`,
-- which is not part of the repository.
pub record Format (H : Http) (T E : Type 0) : Type 0 where
  pub subtype : Str
  pub boxed : ContentError H E → BoxedFilterError H
  pub from_reader : BytesBuf → Result T E

module _ {H : Http} {T E : Type 0} (format : Format H T E) where
  -- `value.cloned().map(Error::WrongContentType).unwrap_or(Error::NoContentType)`
  abbrev pub rejected : Option H.HeaderValue → ContentError H E
  rejected none = no_content_type
  rejected (some value) = wrong_content_type value

  -- The handler of the content type
  unfoldable pub check_type :
      Tuple (Option H.Mime ∷ Option H.HeaderValue ∷ []) → Result (Unit {0}) (BoxedFilterError H)
  check_type (none, value) = err (format.boxed (rejected value.0))
  check_type (some mime, value) =
      if H.type_is mime (str "application") && H.subtype_is mime format.subtype
      then ok tt
      else err (format.boxed (rejected value.0))

  abbrev pub typed : Filter H (Unit {0}) (Unit {0})
  typed = untuple_filter (handle_filter content_type (async_fn (λ args. some (check_type args))))

  abbrev pub readable : Filter H (Unit {0}) (One BytesBuf)
  readable =
      recover_filter all (async_fn (λ e. some (err (format.boxed (reading (into_inner e))))))
        (recover_type body_error)

  unfoldable pub request : Filter H (Unit {0}) (One T)
  unfolding and_filter handle_filter untuple_filter recover_filter content_type all check_type
  request = handle_filter (and_filter typed readable (tuple_append [] (BytesBuf ∷ []))) (
      async_fn (λ body.
        some
          (map_err (λ e. format.boxed (deserializing e)) (format.from_reader (into_inner body)))))

-- `json::request`, with `serde_json::from_reader`
abbrev pub json :
    {H : Http} {T : Type 0} → (BytesBuf → Result T H.JsonError) → Format H T H.JsonError
json {H} from_reader = record {
  subtype = str "json";
  boxed = box json_error;
  from_reader = from_reader;
}

-- `form::urlencoded::request`, with `serde_urlencoded::from_reader`
abbrev pub urlencoded :
    {H : Http} {T : Type 0} → (BytesBuf → Result T H.UrlencodedError) → Format H T H.UrlencodedError
urlencoded {H} from_reader = record {
  subtype = str "x-www-form-urlencoded";
  boxed = box urlencoded_error;
  from_reader = from_reader;
}

-- `json::response`, where `to_vec` is `serde_json::to_vec`
unfoldable pub json_response :
    {H : Http} {T E : Type 0}
    → Responder H (List ℕ)
    → (T → Result (List ℕ) E)
    → T
    → Result (Response H) E
unfolding with_header
json_response {H} vec_responder to_vec value = elim (to_vec value) [
  | err e ↦ err e
  | ok vec ↦ ok (
      with_header vec_responder (H.known Http.content_type) (H.from_static (str "application/json"))
        vec)
]
