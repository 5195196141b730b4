-- ===== src/Content/Multipart.antt =====
-- src/form/multipart.rs: the filter for a body of several parts, and the iterator over them.
pub mod Meaning
use myth.Prelude.{ℕ, Bool, Option, none, some, List, [], ◌∷◌, Result, ok, err, ◌&&◌, if◌then◌else◌}
use myth.Text.{Str, str}
use myth.Http.{Http}
use myth.Errors.{
  BoxedFilterError, MultipartError, no_content_type, wrong_content_type, reading, box, body_error,
  multipart_error, recover_type,
}
use myth.Future.{async_fn}
use myth.Tuple.{Tuple, One, into_inner}
use myth.Tuple.RoundTrip.{tuple_append}
use myth.Filter.{Filter}
use myth.Filter.And.{and_filter}
use myth.Filter.Handle.{handle_filter}
use myth.Filter.Recover.{recover_filter}
use myth.Header.{content_type}
use myth.Body.Buffer.{BytesBuf}
use myth.Body.Take.{all}

-- What the program takes from the crates mime and multipart: `get_param` for the boundary, the parser of
-- a body and its calls, each with what it leaves of the parser. The name, the file name and the content
-- type of a field are its headers.
pub record Parser (H : Http) : Type 1 where
  pub boundary : H.Mime → Option Str
  pub Multipart : Type 0
  pub IoError : Type 0
  pub with_body : BytesBuf → Str → Multipart
  pub FieldHeaders : Type 0
  pub name : FieldHeaders → Str
  pub filename : FieldHeaders → Option Str
  pub content_type : FieldHeaders → Option H.Mime
  pub read_entry : Multipart → Multipart × Result (Option FieldHeaders) IoError
  pub read_to_end : Multipart → Multipart × Result (List ℕ) IoError

-- `Part`; its field `data` is `part_data` here, since `data` is a keyword.
pub record Part (H : Http) : Type 0 where
  pub name : Str
  pub filename : Option Str
  pub content_type : Option H.Mime
  pub part_data : List ℕ

module _ {H : Http} (P : Parser H) where
  abbrev pub rejected : Option H.HeaderValue → MultipartError H
  rejected none = no_content_type
  rejected (some value) = wrong_content_type value

  -- The `if` and the `if let` of the handler, on a content type that was parsed
  abbrev pub boundary_of : H.Mime → Option Str
  boundary_of mime =
      if H.type_is mime (str "multipart") && H.subtype_is mime (str "form-data")
      then P.boundary mime
      else none

  -- The handler of the content type
  abbrev pub given : Option H.HeaderValue → Option Str → Result Str (BoxedFilterError H)
  given value none = err (box multipart_error (rejected value))
  given value (some boundary) = ok boundary

  unfoldable pub find_boundary :
      Tuple (Option H.Mime ∷ Option H.HeaderValue ∷ []) → Result Str (BoxedFilterError H)
  find_boundary (none, value) = given value.0 none
  find_boundary (some mime, value) = given value.0 (boundary_of mime)

  abbrev pub bounded : Filter H (Unit {0}) (One Str)
  bounded = handle_filter content_type (async_fn (λ args. some (find_boundary args)))

  abbrev pub readable : Filter H (Unit {0}) (One BytesBuf)
  readable =
      recover_filter all (async_fn (λ e. some (err (box multipart_error (reading (into_inner e))))))
        (recover_type body_error)

  -- `Data` is the parser that it holds.
  abbrev pub data_of : Tuple (Str ∷ BytesBuf ∷ []) → P.Multipart
  data_of (boundary, readable) = P.with_body readable.0 boundary

  unfoldable pub multipart : Filter H (Unit {0}) (One P.Multipart)
  unfolding and_filter handle_filter recover_filter content_type all find_boundary
  multipart =
      handle_filter (and_filter bounded readable (tuple_append (Str ∷ []) (BytesBuf ∷ [])))
        (async_fn (λ args. some (ok (data_of args))))

  -- What `next` does with the headers of a field, once its data is read
  abbrev pub part_of : P.FieldHeaders → Result (List ℕ) P.IoError → Result (Part H) P.IoError
  part_of headers (err e) = err e
  part_of headers (ok buf) = ok (record {
    name = P.name headers;
    filename = P.filename headers;
    content_type = P.content_type headers;
    part_data = buf;
  })

  -- `Iterator::next` of `Data`
  unfoldable pub next_entry :
      P.Multipart
      → Result (Option P.FieldHeaders) P.IoError
      → P.Multipart × Option (Result (Part H) P.IoError)
  next_entry inner (err e) = (inner, some (err e))
  next_entry inner (ok none) = (inner, none)
  next_entry inner (ok (some headers)) =
      let (inner, result) = P.read_to_end inner in (inner, some (part_of headers result))

  unfoldable pub next : P.Multipart → P.Multipart × Option (Result (Part H) P.IoError)
  unfolding next_entry
  next self = let (inner, entry) = P.read_entry self in next_entry inner entry
