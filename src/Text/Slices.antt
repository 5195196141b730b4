-- ===== src/Text/Slices.antt =====
-- Slicing at the byte offset of a prefix, searching, and comparing.
use myth.Prelude.{
  ℕ, ◌+◌, ◌-◌, ◌≤◌, ◌≡◌, true, false, none, some, [], ◌∷◌, ◌++◌, ◌↔◌, refl, ap, arith, ◌==◌, ltb,
  ==_iff, Bool-cases, Option-cases, inl, inr,
}
use mathlib.Core.Option
use myth.Text.{Str, len_utf8, len, slice_from, slice_to, find, contains, str_eq}

pub len_utf8_pos : (c : ℕ) → 1 ≤ len_utf8 c
len_utf8_pos c = ground arith

pub len-append : (p s : Str) → len (p ++ s) ≡ len p + len s
unfolding len
len-append [] s = omega arith
len-append (c ∷ p) s = omega (arith, len-append p s)

slice_from_zero : (s : Str) → slice_from s 0 ≡ some s
unfolding slice_from
slice_from_zero [] = refl
slice_from_zero (c ∷ s) = refl

slice_to_zero : (s : Str) → slice_to s 0 ≡ some []
unfolding slice_to
slice_to_zero [] = refl
slice_to_zero (c ∷ s) = refl

-- Cutting at the length of a prefix gives the prefix and the rest.
pub slice_from-append : (p s : Str) → slice_from (p ++ s) (len p) ≡ some s
unfolding slice_from len
slice_from-append [] s = slice_from_zero s
slice_from-append (c ∷ p) s =
    let e : len_utf8 c + len p - len_utf8 c ≡ len p = omega arith in
    rw e (ground (arith, len_utf8_pos c, slice_from-append p s))

pub slice_to-append : (p s : Str) → slice_to (p ++ s) (len p) ≡ some p
unfolding slice_to len
slice_to-append [] s = slice_to_zero s
slice_to-append (c ∷ p) s =
    let e : len_utf8 c + len p - len_utf8 c ≡ len p = omega arith in
    rw (e, slice_to-append p s) (ground (arith, len_utf8_pos c))

-- What `find` returns is the length of the text before the first occurrence.
pub find-eq-some :
    (x : ℕ) (s : Str) (i : ℕ)
    → find x s ≡ some i
    → (p : Str) × (q : Str) × (s ≡ p ++ x ∷ q) × (len p ≡ i) × (contains x p ≡ false)
unfolding find len
find-eq-some x [] i h = absurd (cc)
find-eq-some x (c ∷ s) i h = elim (Bool-cases (c == x)) [
  | inl e ↦ ([], s, ap (λ y. y ∷ s) ((==_iff c x).0 e), ground arith, refl)
  | inr e ↦
      let h' : Option.map (λ k. len_utf8 c + k) (find x s) ≡ some i = rw e at h in
      let (k, found, same) = (Option.map-eq-some_iff _ _).0 h' in
      let (p, q, es, el, en) = find-eq-some x s k found in
      (c ∷ p, q, ap (λ t. c ∷ t) es, omega arith, rw e en)
]

pub find-eq-none : (x : ℕ) (s : Str) → find x s ≡ none → contains x s ≡ false
unfolding find
find-eq-none x [] h = refl
find-eq-none x (c ∷ s) h = elim (Option-cases (find x s)) [
  | inl e ↦ ground (arith, find-eq-none x s e)
  | inr (i, e) ↦ absurd (ground arith)
]

pub str_eq_iff : (s t : Str) → (str_eq s t ≡ true) ↔ (s ≡ t)
unfolding str_eq
str_eq_iff [] [] = (λ _. refl, λ _. refl)
str_eq_iff [] (d ∷ t) = (λ h. cc, λ h. cc)
str_eq_iff (c ∷ s) [] = (λ h. cc, λ h. cc)
str_eq_iff (c ∷ s) (d ∷ t) =
    let (to, from) = str_eq_iff s t in (λ h. ground (arith, to), λ h. ground (arith, from))

-- What a slice from the start gives is a prefix.
pub slice_to-prefix :
    (s : Str) (i : ℕ) (p : Str) → slice_to s i ≡ some p → (rest : Str) × (s ≡ p ++ rest)
unfolding slice_to
slice_to-prefix [] i p e = elim (Bool-cases (i == 0)) [
  | inl t ↦ let same : [] ≡ p = cc (rw t at e) in ([], rw (← same) refl)
  | inr t ↦ absurd (cc (rw t at e))
]
slice_to-prefix (c ∷ s) i p e =
    let ih = slice_to-prefix s (i - len_utf8 c) in
    elim (Bool-cases (i == 0)) [
      | inl t ↦ let same : [] ≡ p = cc (rw t at e) in (c ∷ s, rw (← same) refl)
      | inr t ↦ elim (Bool-cases (ltb i (len_utf8 c))) [
        | inl u ↦ absurd (cc (rw (t, u) at e))
        | inr u ↦ elim (Option-cases (slice_to s (i - len_utf8 c))) [
          | inl n ↦ absurd (cc (rw (t, u, n) at e))
          | inr (q, m) ↦
              let (rest, whole) = ih q m in
              let same : c ∷ q ≡ p = cc (rw (t, u, m) at e) in
              (rest, rw (← same) (ap (λ l. c ∷ l) whole))
        ]
      ]
    ]
