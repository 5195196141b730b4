-- ===== src/Text/Split.antt =====
-- Splitting at a character, and what trimming leaves.
use myth.Prelude.{
  ℕ, ◌≡◌, false, List, [], ◌∷◌, ◌++◌, refl, ap, ◌∙◌, arith, ◌==◌, ==_iff, Bool-cases, inl, inr, All,
}
use myth.Text.{Str, contains, split, cons_head, ends_with}

-- No part holds the character that the text was split at.
abbrev pub Plain : ℕ → List Str → Type 0
Plain x parts = All (λ p. contains x p ≡ false) parts

cons_head-Plain :
    (x c : ℕ) (parts : List Str) → (c == x) ≡ false → Plain x parts → Plain x (cons_head c parts)
unfolding cons_head
cons_head-Plain x c [] h k = (rw h refl, tt)
cons_head-Plain x c (p ∷ ps) h k = (rw h k.0, k.1)

pub split-Plain : (x : ℕ) (s : Str) → Plain x (split x s)
unfolding split
split-Plain x [] = (refl, tt)
split-Plain x (c ∷ s) = elim (Bool-cases (c == x)) [
  | inl h ↦ rw h (refl, split-Plain x s)
  | inr h ↦ rw h (cons_head-Plain x c (split x s) h (split-Plain x s))
]

-- The parts with the character between each two.
abbrev pub join : ℕ → List Str → Str
join x [] = []
join x (p ∷ []) = p
join x (p ∷ q ∷ ps) = p ++ x ∷ join x (q ∷ ps)

join-cons_head : (x c : ℕ) (p : Str) (ps : List Str) → join x ((c ∷ p) ∷ ps) ≡ c ∷ join x (p ∷ ps)
join-cons_head x c p [] = refl
join-cons_head x c p (q ∷ ps) = refl

-- A text is its parts joined again.
pub join-split :
    (x : ℕ) (s : Str) → (p : Str) × (ps : List Str) × (split x s ≡ p ∷ ps) × (join x (p ∷ ps) ≡ s)
unfolding split
join-split x [] = ([], [], refl, refl)
join-split x (c ∷ s) =
    let (p, ps, e, j) = join-split x s in
    elim (Bool-cases (c == x)) [
      | inl h ↦ ([], p ∷ ps, rw (h, e), rw ((==_iff c x).0 h, j))
      | inr h ↦ (c ∷ p, ps, rw (h, e, cons_head), join-cons_head x c p ps ∙ ap (λ t. c ∷ t) j)
    ]

pub ends_with-append : (x c : ℕ) (a b : Str) → ends_with x (a ++ c ∷ b) ≡ ends_with x (c ∷ b)
unfolding ends_with
ends_with-append x c [] b = refl
ends_with-append x c (d ∷ []) b = refl
ends_with-append x c (d ∷ e ∷ a) b = ends_with-append x c (e ∷ a) b

-- The last character of a text is one that the text holds.
pub ends_with-contains : (x : ℕ) (s : Str) → contains x s ≡ false → ends_with x s ≡ false
unfolding ends_with
ends_with-contains x [] h = refl
ends_with-contains x (c ∷ []) h = ground arith
ends_with-contains x (c ∷ d ∷ s) h = ends_with-contains x (d ∷ s) (ground arith)
