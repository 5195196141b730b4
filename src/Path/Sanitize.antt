-- ===== src/Path/Sanitize.antt =====
-- What `sanitize_path` lets through: a relative path of segments that stay inside the directory.
use mathlib.Core.List.{append_assoc, append-nil}
use mathlib.Core.Option.{some-injective}
use myth.Prelude.{
  ℕ, ◌≡◌, ◌≢◌, ◌↔◌, ◌⊎◌, inl, inr, Bool, true, false, some, List, [], ◌∷◌, ◌++◌, refl, sym, ap, ◌∙◌,
  arith, Bool-cases, Option-cases, if◌then◌else◌, All, All-append,
}
use myth.Text.{Str, str_eq, contains, starts_with, ends_with, split}
use myth.Text.Slices.{str_eq_iff}
use myth.Text.Split.{join, split-Plain, Plain, ends_with-append, ends_with-contains}
use myth.Http.{Http}
use myth.Path.{push, rejects, push_segments, sanitize_path}

true_ne_false : (b : Bool) → b ≡ true → b ≡ false → ⊥
true_ne_false b h k = cc

-- A segment that names an entry of a directory: no `.` or `..`, no separator, and no character with
-- another meaning at the place where it stands.
pub record IsSafeSegment (seg : Str) : Type 0 where
  pub filled : seg ≢ []
  pub no_slash : contains b'/' seg ≡ false
  pub no_dot : starts_with b'.' seg ≡ false
  pub no_star : starts_with b'*' seg ≡ false
  pub no_colon : ends_with b':' seg ≡ false
  pub no_greater : ends_with b'>' seg ≡ false
  pub no_less : ends_with b'<' seg ≡ false
  pub no_backslash : contains 0x5c seg ≡ false
  pub no_nul : contains 0 seg ≡ false

-- The segments that are not empty.
abbrev pub filled_segments : List Str → List Str
filled_segments [] = []
filled_segments (seg ∷ segs) =
    let rest = filled_segments segs in if str_eq seg [] then rest else seg ∷ rest

ne_of_str_eq : (s : Str) → str_eq s [] ≡ false → s ≢ []
ne_of_str_eq s h e = true_ne_false (str_eq s []) ((str_eq_iff s []).1 e) h

safe_of_rejects :
    (seg : Str) → rejects seg ≡ false → contains b'/' seg ≡ false → seg ≢ [] → IsSafeSegment seg
unfolding rejects
safe_of_rejects seg h k n = record {
  filled = n;
  no_slash = k;
  no_dot = ground arith;
  no_star = ground arith;
  no_colon = ground arith;
  no_greater = ground arith;
  no_less = ground arith;
  no_backslash = ground arith;
  no_nul = ground arith;
}

ends_with-cons : (x c : ℕ) (s : Str) → str_eq s [] ≡ false → ends_with x (c ∷ s) ≡ ends_with x s
unfolding ends_with str_eq
ends_with-cons x c [] h = cc
ends_with-cons x c (d ∷ s) h = refl

-- A joined path of safe segments is not empty and does not end with a slash.
join-safe :
    (seg : Str) (segs : List Str)
    → All IsSafeSegment (seg ∷ segs)
    → (str_eq (join b'/' (seg ∷ segs)) [] ≡ false)
      × (ends_with b'/' (join b'/' (seg ∷ segs)) ≡ false)
unfolding str_eq
join-safe [] [] (h, _) = absurd (h.filled refl)
join-safe [] (next ∷ segs) (h, _) = absurd (h.filled refl)
join-safe (c ∷ seg) [] (h, _) = (refl, ends_with-contains b'/' (c ∷ seg) h.no_slash)
join-safe (c ∷ seg) (next ∷ segs) (h, k) =
    let (filled, open_end) = join-safe next segs k in
    (
      refl,
      ends_with-append b'/' b'/' (c ∷ seg) (join b'/' (next ∷ segs))
          ∙ ends_with-cons b'/' b'/' (join b'/' (next ∷ segs)) filled
          ∙ open_end,
    )

join-snoc :
    (seg : Str) (segs : List Str) (new : Str)
    → join b'/' ((seg ∷ segs) ++ new ∷ []) ≡ join b'/' (seg ∷ segs) ++ b'/' ∷ new
join-snoc seg [] new = refl
join-snoc seg (next ∷ segs) new =
    ap (λ t. seg ++ b'/' ∷ t) (join-snoc next segs new)
    ∙ sym (append_assoc seg (b'/' ∷ join b'/' (next ∷ segs)) (b'/' ∷ new))

starts_of_contains : (x : ℕ) (s : Str) → contains x s ≡ false → starts_with x s ≡ false
unfolding starts_with
starts_of_contains x [] h = refl
starts_of_contains x (c ∷ s) h = ground arith

-- Pushing a safe segment adds it at the end.
push-join :
    (segs : List Str) (new : Str)
    → All IsSafeSegment segs
    → IsSafeSegment new
    → push (join b'/' segs) new ≡ join b'/' (segs ++ new ∷ [])
unfolding push str_eq
push-join [] new h k = rw (starts_of_contains b'/' new k.no_slash)
push-join (seg ∷ segs) new h k =
    let (filled, open_end) = join-safe seg segs h in
    rw (starts_of_contains b'/' new k.no_slash, filled, open_end) (sym (join-snoc seg segs new))

-- The loop: what is pushed is the segments that are not empty, and each of them is safe.
push_segments-safe :
    (pushed segs : List Str) (path : Str)
    → All IsSafeSegment pushed
    → Plain b'/' segs
    → push_segments (join b'/' pushed) segs ≡ some path
    → (path ≡ join b'/' (pushed ++ filled_segments segs)) × All IsSafeSegment (filled_segments segs)
unfolding push_segments
push_segments-safe pushed [] path h k e =
    (sym (some-injective _ _ e) ∙ ap (join b'/') (sym (append-nil pushed)), tt)
push_segments-safe pushed (seg ∷ segs) path h (k, ks) e = elim (Bool-cases (rejects seg)) [
  | inl rejected ↦ absurd (cc (rw rejected at e))
  | inr passed ↦
      let e' : push_segments
            (if str_eq seg [] then join b'/' pushed else push (join b'/' pushed) seg) segs
          ≡ some path =
        rw passed at e in
      elim (Bool-cases (str_eq seg [])) [
        | inl empty ↦
            let e2 : push_segments (join b'/' pushed) segs ≡ some path = rw empty at e' in
            let (here, safe) = push_segments-safe pushed segs path h ks e2 in
            (rw empty here, rw empty safe)
        | inr filled ↦
            let is_safe = safe_of_rejects seg passed k (ne_of_str_eq seg filled) in
            let e2 : push_segments (push (join b'/' pushed) seg) segs ≡ some path =
              rw filled at e' in
            let e3 : push_segments (join b'/' (pushed ++ seg ∷ [])) segs ≡ some path =
              rw (push-join pushed seg h is_safe) at e2 in
            let (here, safe) =
              push_segments-safe (pushed ++ seg ∷ []) segs path
                (All-append IsSafeSegment pushed (seg ∷ []) h (is_safe, tt)) ks e3 in
            (
              rw filled
                  (here ∙ ap (join b'/') (append_assoc pushed (seg ∷ []) (filled_segments segs))),
              rw filled (is_safe, safe),
            )
      ]
]

-- A segment that `sanitize_path` accepts: an empty one, which it drops, or a safe one.
abbrev pub IsAccepted : Str → Type 0
IsAccepted seg = (seg ≡ []) ⊎ IsSafeSegment seg

IsAccepted-of_filled :
    (segs : List Str) → All IsSafeSegment (filled_segments segs) → All IsAccepted segs
IsAccepted-of_filled [] h = tt
IsAccepted-of_filled (seg ∷ segs) h = elim (Bool-cases (str_eq seg [])) [
  | inl empty ↦ (inl ((str_eq_iff seg []).0 empty), IsAccepted-of_filled segs (rw empty at h))
  | inr filled ↦
      let both : IsSafeSegment seg × All IsSafeSegment (filled_segments segs) = rw filled at h in
      (inr both.0, IsAccepted-of_filled segs both.1)
]

rejects-accepted : (seg : Str) → IsAccepted seg → rejects seg ≡ false
unfolding rejects
rejects-accepted seg (inl e) = rw e (unfold starts_with ends_with in refl)
rejects-accepted seg (inr s) =
    rw (s.no_dot, s.no_star, s.no_colon, s.no_greater, s.no_less, s.no_backslash, s.no_nul)

push_segments-accepted :
    (pushed segs : List Str)
    → All IsSafeSegment pushed
    → All IsAccepted segs
    → push_segments (join b'/' pushed) segs ≡ some (join b'/' (pushed ++ filled_segments segs))
unfolding push_segments
push_segments-accepted pushed [] h k = ap (λ l. some (join b'/' l)) (sym (append-nil pushed))
push_segments-accepted pushed (seg ∷ segs) h (k, ks) = elim (Bool-cases (str_eq seg [])) [
  | inl empty ↦ rw (rejects-accepted seg k, empty) (push_segments-accepted pushed segs h ks)
  | inr filled ↦
      let is_safe = safe_of_accepted seg k (ne_of_str_eq seg filled) in
      rw (rejects-accepted seg k, filled, push-join pushed seg h is_safe)
        (push_segments-accepted (pushed ++ seg ∷ []) segs
            (All-append IsSafeSegment pushed (seg ∷ []) h (is_safe, tt)) ks
          ∙ ap (λ l. some (join b'/' l)) (append_assoc pushed (seg ∷ []) (filled_segments segs)))
]
  where
    safe_of_accepted : (seg : Str) → IsAccepted seg → seg ≢ [] → IsSafeSegment seg
    safe_of_accepted seg (inl e) n = absurd (n e)
    safe_of_accepted seg (inr s) n = s

sanitize_path-safe :
    (H : Http) (string path : Str)
    → sanitize_path H string ≡ some path
    → (decoded : Str) × (H.decode_utf8 string ≡ some decoded)
      × (path ≡ join b'/' (filled_segments (split b'/' decoded)))
      × All IsSafeSegment (filled_segments (split b'/' decoded))
unfolding sanitize_path
sanitize_path-safe H string path e = elim (Option-cases (H.decode_utf8 string)) [
  | inl fails ↦ absurd (cc (rw fails at e))
  | inr (decoded, same) ↦
      let e' : push_segments [] (split b'/' decoded) ≡ some path = rw same at e in
      let (here, safe) =
        push_segments-safe [] (split b'/' decoded) path tt (split-Plain b'/' decoded) e' in
      (decoded, same, here, safe)
]

sanitize_path-accepted :
    (H : Http) (string decoded : Str)
    → H.decode_utf8 string ≡ some decoded
    → All IsAccepted (split b'/' decoded)
    → sanitize_path H string ≡ some (join b'/' (filled_segments (split b'/' decoded)))
unfolding sanitize_path
sanitize_path-accepted H string decoded e h =
    rw e (push_segments-accepted [] (split b'/' decoded) tt h)

-- `sanitize_path` gives a path exactly when the text can be decoded, and each part of it between
-- slashes is empty or safe: not empty, with no slash, backslash or null byte in it, no period or
-- asterisk at its beginning, and no colon or angle bracket at its end. The path is then the safe
-- parts, in order, joined with slashes.
pub sanitize_path_iff :
    (H : Http) (string path : Str)
    → (sanitize_path H string ≡ some path) ↔ (
        (decoded : Str) × (H.decode_utf8 string ≡ some decoded)
        × All IsAccepted (split b'/' decoded)
        × (path ≡ join b'/' (filled_segments (split b'/' decoded))))
sanitize_path_iff H string path = (
  λ e.
      let (decoded, same, here, safe) = sanitize_path-safe H string path e in
      (decoded, same, IsAccepted-of_filled (split b'/' decoded) safe, here),
  λ (decoded, same, accepted, here).
      sanitize_path-accepted H string decoded same accepted ∙ ap some (sym here),
)
