-- ===== src/Text/Words.antt =====
-- Words: a character that is no white space, and stands in a text, stands in one of its words.
use myth.Prelude.{
  ℕ, ◌≡◌, ◌⊎◌, inl, inr, true, false, List, [], ◌∷◌, ◌++◌, ap, arith, Bool-cases, ◌==◌, ==_iff,
  or_cases, Exists,
}
use myth.Text.{Str, contains, is_whitespace, split_whitespace, add_word, words_from}

-- The words that contain the character.
abbrev pub Holds : ℕ → List Str → Type 0
Holds x ws = Exists (λ w. contains x w ≡ true) ws

add_word-Holds :
    (x : ℕ) (w : Str) (ws : List Str) → (contains x w ≡ true) ⊎ Holds x ws → Holds x (add_word w ws)
unfolding add_word
add_word-Holds x [] ws (inl h) = absurd (cc h)
add_word-Holds x [] ws (inr h) = h
add_word-Holds x (c ∷ w) ws h = h

contains-snoc :
    (x c : ℕ) (w : Str) → (contains x w ≡ true) ⊎ (c == x ≡ true) → contains x (w ++ c ∷ []) ≡ true
contains-snoc x c [] h = ground arith
contains-snoc x c (d ∷ w) h = ground (arith, contains-snoc x c w)

words_from-Holds :
    (x : ℕ)
    → is_whitespace x ≡ false
    → (w s : Str) → (contains x w ≡ true) ⊎ (contains x s ≡ true)
    → Holds x (words_from w s)
unfolding words_from
words_from-Holds x e w [] (inl h) = add_word-Holds x w [] (inl h)
words_from-Holds x e w [] (inr h) = absurd (cc h)
words_from-Holds x e w (c ∷ s) h = elim (Bool-cases (is_whitespace c)) [
  | inl k ↦ rw k (
      add_word-Holds x w (words_from [] s) (elim h [
        | inl h ↦ inl h
        | inr h ↦ elim (or_cases (c == x) (contains x s) h) [
          | inl i ↦ absurd (cc (k, e, ap is_whitespace ((==_iff c x).0 i)))
          | inr i ↦ inr (words_from-Holds x e [] s (inr i))
        ]
      ]))
  | inr k ↦ rw k (
      words_from-Holds x e (w ++ c ∷ []) s (elim h [
        | inl h ↦ inl (contains-snoc x c w (inl h))
        | inr h ↦ elim (or_cases (c == x) (contains x s) h) [
          | inl i ↦ inl (contains-snoc x c w (inr i))
          | inr i ↦ inr i
        ]
      ]))
]

pub split_whitespace-Holds :
    (x : ℕ) (s : Str) → is_whitespace x ≡ false → contains x s ≡ true → Holds x (split_whitespace s)
unfolding split_whitespace
split_whitespace-Holds x s e h = words_from-Holds x e [] s (inr h)
