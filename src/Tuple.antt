-- ===== src/Tuple.antt =====
-- src/generics/tuples.rs: tuples of any length, given by the list of their types. The source has them
-- up to length 12; `(T,)` is `Tuple (T ∷ [])`.
pub mod RoundTrip
use myth.Prelude.{List, [], ◌∷◌, ◌++◌, ◌≡◌, refl}

abbrev pub Tuple : List (Type 0) → Type 0
Tuple [] = Unit
Tuple (T ∷ Ts) = T × Tuple Ts

abbrev pub One : Type 0 → Type 0
One T = Tuple (T ∷ [])

-- `Tuple::into_inner` and `Tuple::from_inner` of a one-tuple
abbrev pub into_inner : {T : Type 0} → One T → T
into_inner t = t.0

abbrev pub from_inner : {T : Type 0} → T → One T
from_inner t = (t, tt)

-- `AppendOne` and `RemoveOne`
unfoldable pub append_one : (Ts : List (Type 0)) {E : Type 0} → Tuple Ts → E → Tuple (Ts ++ E ∷ [])
append_one [] t e = (e, tt)
append_one (T ∷ Ts) (x, t) e = (x, append_one Ts t e)

unfoldable pub remove_one : (Ts : List (Type 0)) {E : Type 0} → Tuple (Ts ++ E ∷ []) → Tuple Ts × E
remove_one [] (e, t) = (tt, e)
remove_one (T ∷ Ts) (x, t) = let (u, e) = remove_one Ts t in ((x, u), e)

-- `PushOne` and `PopOne`
abbrev pub push_one : {E : Type 0} (Ts : List (Type 0)) → Tuple Ts → E → Tuple (E ∷ Ts)
push_one Ts t e = (e, t)

abbrev pub pop_one : {E : Type 0} (Ts : List (Type 0)) → Tuple (E ∷ Ts) → Tuple Ts × E
pop_one Ts (e, t) = (t, e)

-- `Append::appended_types`: the ending's elements go over one by one.
abbrev pub appended_types : List (Type 0) → List (Type 0) → List (Type 0)
appended_types Ts [] = Ts
appended_types Ts (E ∷ Es) = appended_types (Ts ++ E ∷ []) Es

unfoldable pub append : (Ts Es : List (Type 0)) → Tuple Ts → Tuple Es → Tuple (appended_types Ts Es)
append Ts [] t e = t
append Ts (E ∷ Es) t e =
    append (Ts ++ E ∷ []) Es (append_one Ts t (pop_one Es e).1) (pop_one Es e).0

unfoldable pub remove : (Ts Es : List (Type 0)) → Tuple (appended_types Ts Es) → Tuple Ts × Tuple Es
remove Ts [] a = (a, tt)
remove Ts (E ∷ Es) a =
    let (appended, ending) = remove (Ts ++ E ∷ []) Es a in
    let (beginning, elem) = remove_one Ts appended in (beginning, push_one Es ending elem)

-- What the combinators use of `Append`.
pub record Append (A B : Type 0) : Type 1 where
  pub Both : Type 0
  pub join : A → B → Both
  pub part : Both → A × B
  pub part-join : (a : A) (b : B) → part (join a b) ≡ (a, b)
  pub join-part : (c : Both) → join (part c).0 (part c).1 ≡ c
