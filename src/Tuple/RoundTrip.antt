-- ===== src/Tuple/RoundTrip.antt =====
-- Joining two tuples and taking them apart are inverse.
use myth.Prelude.{List, [], ◌∷◌, ◌++◌, ◌≡◌, refl, ap}
use myth.Tuple.{Tuple, append_one, remove_one, appended_types, append, remove, Append}

pub remove_one-append_one :
    (Ts : List (Type 0)) {E : Type 0} (t : Tuple Ts) (e : E)
    → remove_one Ts (append_one Ts t e) ≡ (t, e)
unfolding remove_one append_one
remove_one-append_one [] u e = refl
remove_one-append_one (T ∷ Ts) (x, t) e = rw (remove_one-append_one Ts t e)

pub append_one-remove_one :
    (Ts : List (Type 0)) (E : Type 0) (a : Tuple (Ts ++ E ∷ []))
    → append_one Ts {E = E} (remove_one Ts a).0 (remove_one Ts a).1 ≡ a
unfolding remove_one append_one
append_one-remove_one [] E (e, u) = refl
append_one-remove_one (T ∷ Ts) E (x, t) = ap (λ u. (x, u)) (append_one-remove_one Ts E t)

-- Taking apart what two tuples of any lengths were joined to gives the two tuples.
pub remove-append :
    (Ts Es : List (Type 0)) (t : Tuple Ts) (e : Tuple Es) → remove Ts Es (append Ts Es t e) ≡ (t, e)
unfolding remove append
remove-append Ts [] t u = refl
remove-append Ts (E ∷ Es) t (x, e) =
    rw (remove-append (Ts ++ E ∷ []) Es (append_one Ts t x) e, remove_one-append_one Ts t x)

-- Joining the two parts that a tuple was taken apart into gives the tuple.
pub append-remove :
    (Ts Es : List (Type 0)) (a : Tuple (appended_types Ts Es))
    → append Ts Es (remove Ts Es a).0 (remove Ts Es a).1 ≡ a
unfolding remove append
append-remove Ts [] a = refl
append-remove Ts (E ∷ Es) a =
    rw (append_one-remove_one Ts E (remove (Ts ++ E ∷ []) Es a).0)
      (append-remove (Ts ++ E ∷ []) Es a)

-- The implementation of what the combinators use.
abbrev pub tuple_append : (Ts Es : List (Type 0)) → Append (Tuple Ts) (Tuple Es)
tuple_append Ts Es = record {
  Both = Tuple (appended_types Ts Es);
  join = append Ts Es;
  part = remove Ts Es;
  part-join = remove-append Ts Es;
  join-part = append-remove Ts Es;
}
