-- ===== src/Prelude/Lists.antt =====
-- Lists of the program: Boolean and propositional quantifiers, and lengths in native numbers.
use Prim.Native.Nat.{ℕ, zero, suc, ◌+◌, ◌-◌, ◌≤◌, ◌<◌}
use mathlib.Core.Path.{◌≡◌, refl, ap, ◌∙◌}
use mathlib.Core.Bool.{Bool, true, false, ◌&&◌, ◌||◌}
use mathlib.Core.List.{List, [], ◌∷◌, ◌++◌}
use native.Mathlib.Omega.{arith}
use myth.Prelude.Tests.{Bool-cases}
use mathlib.Core.Logic.{◌≢◌, ◌⊎◌, inl, inr}

module _ {ℓ} {A : Type ℓ} where
  abbrev pub length : List A → ℕ
  length [] = 0
  length (x ∷ xs) = suc (length xs)

  pub length-append : (xs ys : List A) → length (xs ++ ys) ≡ length xs + length ys
  length-append [] ys = omega arith
  length-append (x ∷ xs) ys = omega (arith, length-append xs ys)

  -- `iter().any(…)`
  abbrev pub any : (A → Bool) → List A → Bool
  any p [] = false
  any p (x ∷ xs) = p x || any p xs

  -- `iter().all(…)`
  abbrev pub all : (A → Bool) → List A → Bool
  all p [] = true
  all p (x ∷ xs) = p x && all p xs

  pub all-append : (p : A → Bool) (xs ys : List A) → all p (xs ++ ys) ≡ (all p xs && all p ys)
  all-append p [] ys = refl
  all-append p (x ∷ xs) ys = ground (arith, all-append p xs ys)

  abbrev pub All {κ} : (A → Type κ) → List A → Type κ
  All P [] = Unit
  All P (x ∷ xs) = P x × All P xs

  pub All-append {κ} : (P : A → Type κ) (xs ys : List A) → All P xs → All P ys → All P (xs ++ ys)
  All-append P [] ys hx hy = hy
  All-append P (x ∷ xs) ys hx hy = (hx.0, All-append P xs ys hx.1 hy)

-- Some element is as said.
abbrev pub Exists {ℓ} : {A : Type ℓ} → (A → Type 0) → List A → Type 0
Exists P [] = ⊥
Exists P (x ∷ xs) = P x ⊎ Exists P xs

-- The tests decide the quantifiers.
module _ {ℓ} {A : Type ℓ} (p : A → Bool) where
  pub Exists-of_any : (xs : List A) → any p xs ≡ true → Exists (λ x. p x ≡ true) xs
  Exists-of_any [] h = cc
  Exists-of_any (x ∷ xs) h = elim (Bool-cases (p x)) [
    | inl e ↦ inl e
    | inr e ↦ inr (Exists-of_any xs (rw e at h))
  ]

  pub any_of_Exists : (xs : List A) → Exists (λ x. p x ≡ true) xs → any p xs ≡ true
  any_of_Exists [] h = elim h [ ]
  any_of_Exists (x ∷ xs) (inl e) = rw e
  any_of_Exists (x ∷ xs) (inr h) = ground (arith, any_of_Exists xs h)

-- The first `n` elements, and the others.
module _ {ℓ} {A : Type ℓ} where
  abbrev pub take : ℕ → List A → List A
  take zero xs = []
  take (suc n) [] = []
  take (suc n) (x ∷ xs) = x ∷ take n xs

  abbrev pub drop : ℕ → List A → List A
  drop zero xs = xs
  drop (suc n) [] = []
  drop (suc n) (x ∷ xs) = drop n xs

  pub drop-append :
      (n : ℕ) (xs ys : List A) → drop n (xs ++ ys) ≡ drop n xs ++ drop (n - length xs) ys
  drop-append zero xs ys = ap (λ k. xs ++ drop k ys) {x = 0} {y = 0 - length xs} (omega arith)
  drop-append (suc n) [] ys = ap (λ k. drop k ys) {x = suc n} {y = suc n - 0} (omega arith)
  drop-append (suc n) (x ∷ xs) ys =
      drop-append n xs ys
      ∙ ap (λ k. drop n xs ++ drop k ys) {x = n - length xs} {y = suc n - suc (length xs)}
          (omega arith)

  pub drop-nil : (n : ℕ) (xs : List A) → length xs ≤ n → drop n xs ≡ []
  drop-nil zero [] h = refl
  drop-nil zero (x ∷ xs) h = absurd (omega arith)
  drop-nil (suc n) [] h = refl
  drop-nil (suc n) (x ∷ xs) h = drop-nil n xs (omega arith)

  pub take-all : (n : ℕ) (xs : List A) → length xs ≤ n → take n xs ≡ xs
  take-all zero [] h = refl
  take-all zero (x ∷ xs) h = absurd (omega arith)
  take-all (suc n) [] h = refl
  take-all (suc n) (x ∷ xs) h = ap (λ l. x ∷ l) (take-all n xs (omega arith))

  pub length-take : (n : ℕ) (xs : List A) → n ≤ length xs → length (take n xs) ≡ n
  length-take zero xs h = refl
  length-take (suc n) [] h = absurd (omega arith)
  length-take (suc n) (x ∷ xs) h = ap suc (length-take n xs (omega arith))

  pub length-drop : (n : ℕ) (xs : List A) → length (drop n xs) ≡ length xs - n
  length-drop zero xs = omega arith
  length-drop (suc n) [] = omega arith
  length-drop (suc n) (x ∷ xs) = omega (arith, length-drop n xs)

  pub drop-ne_nil : (n : ℕ) (xs : List A) → n < length xs → drop n xs ≢ []
  drop-ne_nil zero [] h = absurd (omega arith)
  drop-ne_nil zero (x ∷ xs) h = λ e. cc
  drop-ne_nil (suc n) [] h = absurd (omega arith)
  drop-ne_nil (suc n) (x ∷ xs) h = drop-ne_nil n xs (omega arith)
