-- ===== src/Prelude/Results.antt =====
-- `Result` of the program's language, and the four ways in which it is mapped.
use mathlib.Core.Path.{◌≡◌, refl}
use mathlib.Core.Logic.{◌⊎◌, inl, inr}

pub data Result (A E : Type 0) : Type 0 where
  ok : A → Result A E
  err : E → Result A E

-- `Result::map`
abbrev pub map_ok : {A B E : Type 0} → (A → B) → Result A E → Result B E
map_ok f (ok a) = ok (f a)
map_ok f (err e) = err e

-- `Result::map_err`
abbrev pub map_err : {A E F : Type 0} → (E → F) → Result A E → Result A F
map_err f (ok a) = ok a
map_err f (err e) = err (f e)

pub Result-cases :
    {A E : Type 0} (r : Result A E) → ((a : A) × (r ≡ ok a)) ⊎ ((e : E) × (r ≡ err e))
Result-cases (ok a) = inl (a, refl)
Result-cases (err e) = inr (e, refl)
