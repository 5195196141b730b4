-- ===== src/Body/Buffer.antt =====
-- src/body.rs: `BytesBuf`, which the crate bytes and the standard library read as a `Buf` and a `Read`.
-- A `Vec<u8>` and `Bytes` are lists of bytes, a `VecDeque<Bytes>` a list of these.
pub mod Meaning
use mathlib.Core.Option
use mathlib.Core.List.{head?}
use myth.Prelude.{
  ℕ, ◌+◌, ◌-◌, ◌≤◌, ◌<◌, ◌≡◌, ◌≢◌, Bool, Option, none, some, ◌>>=◌, List, [], ◌∷◌, ◌++◌, length,
  take, drop, ltb, if◌then◌else◌, unwrap_or,
}

-- The methods of the trait `bytes::Buf` that have no default body; `none` is a panic.
pub record Buf (B : Type 0) : Type 0 where
  pub remaining : B → ℕ
  pub chunk : B → List ℕ
  pub advance : ℕ → B → Option B

-- What the trait asks of them, of the values that are valid, where `view` are the bytes to come.
pub record IsBuf {B : Type 0} (buf : Buf B) (IsValid : B → Type 0) (view : B → List ℕ)
    : Type 0 where
  pub remaining : (b : B) → IsValid b → buf.remaining b ≡ length (view b)
  pub chunk : (b : B) → IsValid b → (rest : List ℕ) × (view b ≡ buf.chunk b ++ rest)
  pub chunk-nil : (b : B) → IsValid b → buf.chunk b ≡ [] → view b ≡ []
  pub advance :
      (b : B) (cnt : ℕ)
      → IsValid b
      → cnt ≤ length (view b)
      → (b' : B) × (buf.advance cnt b ≡ some b') × IsValid b' × (view b' ≡ drop cnt (view b))

-- `Buf::copy_to_slice`, a method of the trait with a body that is not part of the repository, and what
-- its documentation says of it.
abbrev pub CopyToSlice : Type 1
CopyToSlice = (B : Type 0) → Buf B → List ℕ → B → Option (List ℕ × B)

abbrev pub FillsSlice : CopyToSlice → Type 1
FillsSlice copy_to_slice =
    (B : Type 0) (buf : Buf B) (IsValid : B → Type 0) (view : B → List ℕ)
    → IsBuf buf IsValid view
    → (dst : List ℕ) (b : B) → IsValid b
    → length dst ≤ length (view b)
    → (b' : B) × (copy_to_slice B buf dst b ≡ some (take (length dst) (view b), b'))
      × IsValid b'
      × (view b' ≡ drop (length dst) (view b))

pub record BytesBuf : Type 0 where
  pub bytes : List (List ℕ)
  pub len : ℕ

unfoldable pub remaining : BytesBuf → ℕ
remaining self = self.len

unfoldable pub chunk : BytesBuf → List ℕ
chunk self = unwrap_or [] (head? self.bytes)

-- The loop of `advance`
unfoldable pub advance_chunks : ℕ → List (List ℕ) → List (List ℕ)
advance_chunks cnt [] = []
advance_chunks cnt (front ∷ bytes) =
    let popped = advance_chunks (cnt - length front) bytes in
    if ltb cnt (length front) then drop cnt front ∷ bytes else popped

unfoldable pub advance : ℕ → BytesBuf → Option BytesBuf
unfolding advance_chunks
advance cnt self =
    if ltb self.len cnt
    then none
    else some (record { bytes = advance_chunks cnt self.bytes; len = self.len - cnt })

-- `impl Buf for BytesBuf`
abbrev pub bytes_buf : Buf BytesBuf
bytes_buf = record { remaining = remaining; chunk = chunk; advance = advance }

-- `impl Read for BytesBuf`: the number of bytes read, the slice afterwards, and the buffer.
unfoldable pub read : CopyToSlice → List ℕ → BytesBuf → Option (ℕ × List ℕ × BytesBuf)
unfolding remaining
read copy_to_slice buf self = do
  let slice = if ltb (remaining self) (length buf) then take (remaining self) buf else buf
  (filled, self) ← copy_to_slice BytesBuf bytes_buf slice self
  some (length slice, filled ++ drop (length slice) buf, self)
