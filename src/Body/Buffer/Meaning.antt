-- ===== src/Body/Buffer/Meaning.antt =====
-- What the methods of `BytesBuf` do to the bytes that it holds.
use Prim.Native.Nat.{min}
use myth.Prelude.{
  ℕ, ◌-◌, ◌≤◌, ◌<◌, ◌≡◌, ◌≢◌, ◌⊎◌, refl, sym, ap, ◌∙◌, Bool-cases, inl, inr, none, some, List, [],
  ◌∷◌, ◌++◌, length, All, take, drop, drop-append, drop-nil, drop-ne_nil, length-take, length-drop,
  ltb, arith,
}
use myth.Request.Body.{concat}
use myth.Body.Buffer.{
  IsBuf, CopyToSlice, FillsSlice, BytesBuf, remaining, chunk, advance_chunks, advance, bytes_buf,
  read,
}

-- The length that is kept is that of the chunks, and no chunk is empty.
abbrev pub IsWhole : BytesBuf → Type 0
IsWhole self = (self.len ≡ length (concat self.bytes)) × All (λ b. b ≢ []) self.bytes

-- The bytes that are still to be read.
abbrev pub unread : BytesBuf → List ℕ
unread self = concat self.bytes

-- Advancing the chunks drops their first bytes, and leaves no empty chunk.
advance_chunks_lem :
    (cnt : ℕ) (bytes : List (List ℕ))
    → All (λ b. b ≢ []) bytes
    → (concat (advance_chunks cnt bytes) ≡ drop cnt (concat bytes))
      × All (λ b. b ≢ []) (advance_chunks cnt bytes)
unfolding advance_chunks
advance_chunks_lem cnt [] h = (sym (drop-nil cnt [] (omega arith)), tt)
advance_chunks_lem cnt (front ∷ bytes) h =
    let (e, a) = advance_chunks_lem (cnt - length front) bytes h.1 in
    let split = drop-append cnt front (concat bytes) in
    elim (Bool-cases (ltb cnt (length front))) [
      | inl t ↦
          let short : cnt < length front = ground arith in
          let rest : drop (cnt - length front) (concat bytes) ≡ concat bytes =
            ap (λ k. drop k (concat bytes)) {x = cnt - length front} {y = 0} (omega arith) in
          rw t
            (sym (split ∙ ap (λ l. drop cnt front ++ l) rest), (drop-ne_nil cnt front short, h.1))
      | inr t ↦
          let long : length front ≤ cnt = ground arith in
          rw t (
            e
                ∙ sym (
                    split
                    ∙ ap (λ l. l ++ drop (cnt - length front) (concat bytes))
                        (drop-nil cnt front long)),
            a,
          )
    ]

-- Advancing a whole buffer panics when it goes past the end, and else leaves a whole buffer with the
-- bytes after the first `cnt`.
pub advance_lem :
    (cnt : ℕ) (self : BytesBuf)
    → IsWhole self
    → ((length (unread self) < cnt) × (advance cnt self ≡ none))
      ⊎ ((cnt ≤ length (unread self))
          × ((self' : BytesBuf) × (advance cnt self ≡ some self')
              × IsWhole self'
              × (unread self' ≡ drop cnt (unread self))))
unfolding advance
advance_lem cnt self w = elim (Bool-cases (ltb self.len cnt)) [
  | inl t ↦ inl (ground (arith, w.0), rw t refl)
  | inr t ↦
      let (e, a) = advance_chunks_lem cnt self.bytes w.1 in
      let len : self.len - cnt ≡ length (concat (advance_chunks cnt self.bytes)) =
        omega (arith, w.0, ap length e, length-drop cnt (concat self.bytes)) in
      inr (ground (arith, w.0), (_, rw t refl, (len, a), e))
]

chunk_prefix :
    (bytes : List (List ℕ)) (len : ℕ)
    → (rest : List ℕ) × (concat bytes ≡ chunk (record { bytes = bytes; len = len }) ++ rest)
unfolding chunk
chunk_prefix [] len = ([], refl)
chunk_prefix (front ∷ bytes) len = (concat bytes, refl)

chunk-nil :
    (bytes : List (List ℕ)) (len : ℕ)
    → All (λ b. b ≢ []) bytes
    → chunk (record { bytes = bytes; len = len }) ≡ []
    → concat bytes ≡ []
unfolding chunk
chunk-nil [] len h e = refl
chunk-nil (front ∷ bytes) len h e = absurd (h.0 e)

-- A whole buffer is as the trait `Buf` asks.
pub bytes_buf-IsBuf : IsBuf bytes_buf IsWhole unread
unfolding remaining
bytes_buf-IsBuf = record {
  remaining = λ b w. w.0;
  chunk = λ b w. chunk_prefix b.bytes b.len;
  chunk-nil = λ b w e. chunk-nil b.bytes b.len w.1 e;
  advance = λ b cnt w h. elim (advance_lem cnt b w) [
    | inl (past, e) ↦ absurd (omega (arith, past, h))
    | inr (le, (b', e, w', u)) ↦ (b', e, w', u)
  ];
}

-- Reading from a list of bytes into a slice: how many bytes are read, the slice afterwards, and the bytes
-- that are left.
abbrev pub read_bytes : List ℕ → List ℕ → ℕ × List ℕ × List ℕ
read_bytes dst bytes =
    let count = min (length dst) (length bytes) in
    (count, take count bytes ++ drop count dst, drop count bytes)

module _ (copy_to_slice : CopyToSlice) (fills : FillsSlice copy_to_slice) where
  -- Reading from a whole buffer into a slice never panics: it reads as many bytes as the slice and the
  -- buffer both have, puts the first bytes of the buffer at the start of the slice and leaves the rest of
  -- the slice alone, and leaves a whole buffer with the bytes after them.
  pub read_lem :
      (buf : List ℕ) (self : BytesBuf)
      → IsWhole self
      → (self' : BytesBuf) × (read copy_to_slice buf self
          ≡ some ((read_bytes buf (unread self)).0, (read_bytes buf (unread self)).1, self'))
        × IsWhole self'
        × (unread self' ≡ (read_bytes buf (unread self)).2)
  unfolding read remaining
  read_lem buf self w = elim (Bool-cases (ltb self.len (length buf))) [
    | inl t ↦
        let slice = take self.len buf in
        let short : self.len < length buf = ground arith in
        let len : length slice ≡ self.len = length-take self.len buf (omega (arith, short)) in
        let (self', e, w', u) =
          fills BytesBuf bytes_buf IsWhole unread bytes_buf-IsBuf slice self w
            (omega (arith, len, w.0)) in
        let count : length slice ≡ min (length buf) (length (unread self)) =
          omega (arith, len, w.0, short) in
        (
          self',
          rw (t, e) (ap (λ k. some (k, take k (unread self) ++ drop k buf, self')) count),
          w',
          u ∙ ap (λ k. drop k (unread self)) count,
        )
    | inr t ↦
        let long : length buf ≤ self.len = ground arith in
        let (self', e, w', u) =
          fills BytesBuf bytes_buf IsWhole unread bytes_buf-IsBuf buf self w
            (omega (arith, long, w.0)) in
        let count : length buf ≡ min (length buf) (length (unread self)) =
          omega (arith, w.0, long) in
        (
          self',
          rw (t, e) (ap (λ k. some (k, take k (unread self) ++ drop k buf, self')) count),
          w',
          u ∙ ap (λ k. drop k (unread self)) count,
        )
  ]
