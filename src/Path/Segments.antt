-- ===== src/Path/Segments.antt =====
-- What a segment of a path is, and what the filters that consume one do with it.
use mathlib.Core.List.{append-nil, cons-eq-cons}
use mathlib.Core.Path.{ap₂}
use myth.Prelude.{
  ℕ, ◌+◌, ◌≡◌, ◌≢◌, ◌⊎◌, inl, inr, true, false, none, some, [], ◌∷◌, ◌++◌, refl, sym, ap, arith,
  ◌==◌, ==_iff, Bool-cases, Option-cases,
}
use myth.Text.{Str, str, len, find, slice_from, slice_to, contains}
use myth.Text.Slices.{slice_from-append, slice_to-append, find-eq-some, find-eq-none}
use myth.Path.{slash_index, segment_of}

-- What may stand behind a segment: nothing, or a slash.
abbrev pub AtSlash : Str → Type 0
AtSlash [] = Unit
AtSlash (c ∷ s) = c ≡ b'/'

-- `path` is an optional slash, a segment without slashes, and a rest that is empty or begins with a
-- slash; and `length` counts the bytes of the first two.
pub record IsSegment (path found : Str) (length : ℕ) : Type 0 where
  pub lead : Str
  pub rest : Str
  pub leads : (lead ≡ str "/") ⊎ ((lead ≡ []) × (found ≢ []))
  pub splits : path ≡ (lead ++ found) ++ rest
  pub measured : length ≡ len (lead ++ found)
  pub plain : contains b'/' found ≡ false
  pub stops : AtSlash rest

slash_split :
    (s : Str)
    → (p : Str) × (q : Str) × (s ≡ p ++ q)
      × (slash_index s ≡ len p)
      × (contains b'/' p ≡ false)
      × AtSlash q
unfolding slash_index
slash_split s = elim (Option-cases (find b'/' s)) [
  | inl e ↦ (s, [], sym (append-nil s), rw e, find-eq-none b'/' s e, tt)
  | inr (i, e) ↦
      let (p, q, es, el, en) = find-eq-some b'/' s i e in (p, b'/' ∷ q, es, rw e (sym el), en, refl)
]

slice_to-slash_index :
    (s p q : Str) → s ≡ p ++ q → slash_index s ≡ len p → slice_to s (slash_index s) ≡ some p
slice_to-slash_index s p q e l = rw (l, e) (slice_to-append p q)

slice_from_one : (s : Str) → slice_from (b'/' ∷ s) 1 ≡ some s
slice_from_one s = unfold len in slice_from-append (str "/") s

len_slash : (p : Str) {i : ℕ} → i ≡ len p → i + 1 ≡ len (str "/" ++ p)
unfolding len
len_slash p h = omega (arith, h)

-- A segment that does not begin with a slash is not empty.
plain-ne-nil : (c : ℕ) (s p q : Str) → (c == b'/') ≡ false → c ∷ s ≡ p ++ q → AtSlash q → p ≢ []
plain-ne-nil c s [] [] h e a n = cc
plain-ne-nil c s [] (d ∷ q) h e a n =
    let same : c ≡ d = (cons-eq-cons.0 e).0 in ground (arith, same)
plain-ne-nil c s (d ∷ p) q h e a n = cc

abbrev pub Found : Str → Type 0
Found path =
    (found : Str) × (length : ℕ) × (segment_of path ≡ some (some (found, length)))
    × IsSegment path found length

segment_of_plain : (c : ℕ) (s : Str) → (c == b'/') ≡ false → Found (c ∷ s)
unfolding segment_of
segment_of_plain c s h =
    let (p, q, e, l, plain, stops) = slash_split (c ∷ s) in
    (
      p,
      slash_index (c ∷ s),
      rw (h, slice_to-slash_index (c ∷ s) p q e l),
      record {
        lead = [];
        rest = q;
        leads = inr (refl, plain-ne-nil c s p q h e stops);
        splits = e;
        measured = l;
        plain = plain;
        stops = stops;
      },
    )

segment_of_slash : (c d : ℕ) (s : Str) → (c == b'/') ≡ true → Found (c ∷ d ∷ s)
unfolding segment_of
segment_of_slash c d s h =
    let (p, q, e, l, plain, stops) = slash_split (d ∷ s) in
    let cut : slice_from (b'/' ∷ d ∷ s) 1 ≡ some (d ∷ s) = slice_from_one (d ∷ s) in
    (
      p,
      slash_index (d ∷ s) + 1,
      rw (h, cut, slice_to-slash_index (d ∷ s) p q e l),
      record {
        lead = str "/";
        rest = q;
        leads = inl refl;
        splits = ap₂ (λ x y. x ∷ y) ((==_iff c b'/').0 h) e;
        measured = len_slash p l;
        plain = plain;
        stops = stops;
      },
    )

segment_of_nil : segment_of [] ≡ some none
unfolding segment_of
segment_of_nil = refl

segment_of_lone : (c : ℕ) → (c == b'/') ≡ true → segment_of (c ∷ []) ≡ some none
unfolding segment_of
segment_of_lone c h = rw h

-- `segment` finds nothing exactly on an empty path and on a lone slash, and on any other path finds the
-- segment at its start, with its length in bytes. No slice in it panics.
pub segment_of_lem :
    (path : Str)
    → ((segment_of path ≡ some none) × ((path ≡ []) ⊎ (path ≡ str "/")))
      ⊎ (Found path × (path ≢ []) × (path ≢ str "/"))
segment_of_lem [] = inl (segment_of_nil, inl refl)
segment_of_lem (c ∷ s) = elim (Bool-cases (c == b'/')) [
  | inr h ↦ inr (
    segment_of_plain c s h,
    (λ e. cc),
    λ e. let same : c ≡ b'/' = (cons-eq-cons.0 e).0 in ground (arith, same),
  )
  | inl h ↦ after c s h
]
  where
    after :
        (c : ℕ) (s : Str)
        → (c == b'/') ≡ true
        → ((segment_of (c ∷ s) ≡ some none) × ((c ∷ s ≡ []) ⊎ (c ∷ s ≡ str "/")))
          ⊎ (Found (c ∷ s) × (c ∷ s ≢ []) × (c ∷ s ≢ str "/"))
    after c [] h = inl (segment_of_lone c h, inr (ap (λ x. x ∷ []) ((==_iff c b'/').0 h)))
    after c (d ∷ s) h = inr (segment_of_slash c d s h, (λ e. cc), (λ e. cc))
