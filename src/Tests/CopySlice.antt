-- ===== src/Tests/CopySlice.antt =====
-- A `copy_to_slice` that does what its documentation says, by a loop over the chunks.
use Prim.Native.Nat.{min}
use mathlib.Core.Path.{ap₂}
use myth.Prelude.{
  ℕ, zero, suc, ◌-◌, ◌≤◌, ◌≡◌, ◌≢◌, refl, sym, ap, ◌∙◌, Option, some, ◌>>=◌, List, [], ◌∷◌, ◌++◌,
  length, take, drop, length-drop, arith,
}
use myth.Body.Buffer.{Buf, IsBuf, CopyToSlice, FillsSlice}

pub copy_loop : {B : Type 0} → ℕ → Buf B → List ℕ → B → Option (List ℕ × B)
copy_loop zero buf dst b = some ([], b)
copy_loop (suc fuel) buf [] b = some ([], b)
copy_loop (suc fuel) buf (d ∷ dst) b = do
  let cnt = min (length (buf.chunk b)) (length (d ∷ dst))
  b' ← buf.advance cnt b
  (filled, b'') ← copy_loop fuel buf (drop cnt (d ∷ dst)) b'
  some (take cnt (buf.chunk b) ++ filled, b'')

abbrev pub copied : CopyToSlice
copied B buf dst b = copy_loop (length dst) buf dst b

take-front : (n : ℕ) (xs ys : List ℕ) → n ≤ length xs → take n (xs ++ ys) ≡ take n xs
take-front zero xs ys h = refl
take-front (suc n) [] ys h = absurd (omega arith)
take-front (suc n) (x ∷ xs) ys h = ap (λ l. x ∷ l) (take-front n xs ys (omega arith))

take-part : (m n : ℕ) (xs : List ℕ) → m ≤ n → take m xs ++ take (n - m) (drop m xs) ≡ take n xs
take-part zero n xs h = ap (λ k. take k xs) {x = n - 0} {y = n} (omega arith)
take-part (suc m) zero xs h = absurd (omega arith)
take-part (suc m) (suc n) [] h = take-nil (suc n - suc m)
  where
    take-nil : (k : ℕ) → take {A = ℕ} k [] ≡ []
    take-nil zero = refl
    take-nil (suc k) = refl
take-part (suc m) (suc n) (x ∷ xs) h =
    ap (λ k. x ∷ (take m xs ++ take k (drop m xs))) {x = suc n - suc m} {y = n - m} (omega arith)
    ∙ ap (λ l. x ∷ l) (take-part m n xs (omega arith))

drop-part : (m n : ℕ) (xs : List ℕ) → m ≤ n → drop (n - m) (drop m xs) ≡ drop n xs
drop-part zero n xs h = ap (λ k. drop k xs) {x = n - 0} {y = n} (omega arith)
drop-part (suc m) zero xs h = absurd (omega arith)
drop-part (suc m) (suc n) [] h = drop-empty (suc n - suc m)
  where
    drop-empty : (k : ℕ) → drop {A = ℕ} k [] ≡ []
    drop-empty zero = refl
    drop-empty (suc k) = refl
drop-part (suc m) (suc n) (x ∷ xs) h =
    ap (λ k. drop k (drop m xs)) {x = suc n - suc m} {y = n - m} (omega arith)
    ∙ drop-part m n xs (omega arith)

-- What is taken from the first chunk, and from the bytes after it.
take-chunk :
    (n cnt : ℕ) (chunk rest bytes : List ℕ)
    → bytes ≡ chunk ++ rest
    → cnt ≤ length chunk
    → cnt ≤ n
    → take cnt chunk ++ take (n - cnt) (drop cnt bytes) ≡ take n bytes
take-chunk n cnt chunk rest bytes e h k =
    ap (λ l. l ++ take (n - cnt) (drop cnt bytes))
      (sym (ap (take cnt) e ∙ take-front cnt chunk rest h))
    ∙ take-part cnt n bytes k

copy_loop-fills :
    (B : Type 0) (buf : Buf B) (IsValid : B → Type 0) (view : B → List ℕ)
    → IsBuf buf IsValid view
    → (fuel : ℕ) (dst : List ℕ) (b : B) → length dst ≤ fuel
    → IsValid b
    → length dst ≤ length (view b)
    → (b' : B) × (copy_loop fuel buf dst b ≡ some (take (length dst) (view b), b'))
      × IsValid b'
      × (view b' ≡ drop (length dst) (view b))
unfolding copy_loop
copy_loop-fills B buf IsValid view is zero [] b f v h = (b, refl, v, refl)
copy_loop-fills B buf IsValid view is zero (d ∷ dst) b f v h = absurd (omega arith)
copy_loop-fills B buf IsValid view is (suc fuel) [] b f v h = (b, refl, v, refl)
copy_loop-fills B buf IsValid view is (suc fuel) (d ∷ dst) b f v h =
    let n = length (d ∷ dst) in
    let (rest, whole) = is.chunk b v in
    let cnt = min (length (buf.chunk b)) n in
    let some_bytes : buf.chunk b ≢ [] =
      λ e. absurd (omega (arith, h, ap length (is.chunk-nil b v e))) in
    let positive : 1 ≤ length (buf.chunk b) = length-pos (buf.chunk b) some_bytes in
    let (b', a, v', u) = is.advance b cnt v (omega (arith, h)) in
    let left : length (drop cnt (d ∷ dst)) ≡ n - cnt = length-drop cnt (d ∷ dst) in
    let seen : length (view b') ≡ length (view b) - cnt = ap length u ∙ length-drop cnt (view b) in
    let (b'', e, v'', u') =
      copy_loop-fills B buf IsValid view is fuel (drop cnt (d ∷ dst)) b'
        (omega (arith, left, positive, f)) v' (omega (arith, left, seen, h)) in
    let filled =
      ap₂ (λ k l. take cnt (buf.chunk b) ++ take k l) left u
      ∙ take-chunk n cnt (buf.chunk b) rest (view b) whole (omega arith) (omega arith) in
    (
      b'',
      rw (a, e) (ap (λ l. some (l, b'')) filled),
      v'',
      u' ∙ ap₂ (λ k l. drop k l) left u ∙ drop-part cnt n (view b) (omega arith),
    )
  where
    length-pos : (xs : List ℕ) → xs ≢ [] → 1 ≤ length xs
    length-pos [] h = absurd (h refl)
    length-pos (x ∷ xs) h = omega arith

pub copied-FillsSlice : FillsSlice copied
copied-FillsSlice B buf IsValid view is dst b v h =
    copy_loop-fills B buf IsValid view is (length dst) dst b (omega arith) v h
