-- ===== src/Text/Numbers.antt =====
-- Numbers in decimal, as `format!` writes a number and `str::parse` reads a `usize` of 64 bits.
use myth.Prelude.{
  ℕ, zero, suc, ◌+◌, ◌-◌, ◌*◌, ◌/◌, ◌%◌, ◌^◌, ◌≤◌, ◌<◌, ◌≡◌, refl, sym, ap, ◌∙◌, true, false, ◌&&◌,
  Option, none, some, ◌>>=◌, [], ◌∷◌, ◌++◌, ltb, leb, ◌==◌, if◌then◌else◌, arith, Bool-cases, inl,
  inr, all, all-append,
}
use mathlib.Core.Path.{ap₂}
use myth.Text.{Str, visible}

-- The digits of a number, given as many steps as the number.
abbrev pub digits_of : ℕ → ℕ → Str
digits_of zero n = (b'0' + n) ∷ []
digits_of (suc steps) n =
    let front = digits_of steps (n / 10) in
    if ltb n 10 then (b'0' + n) ∷ [] else front ++ (b'0' + n % 10) ∷ []

-- `format!("{}", n)`
unfoldable pub decimal : ℕ → Str
decimal n = digits_of n n

-- The digits that follow a number that was read; `none` on a character that is no digit, or past the end
-- of the type.
unfoldable pub parse_from : ℕ → Str → Option ℕ
parse_from read [] = some read
parse_from read (c ∷ s) =
    let next = read * 10 + (c - b'0') in
    let rest = parse_from next s in
    if leb b'0' c && leb c b'9' && ltb next (2 ^ 64) then rest else none

-- The digits of a number; there is at least one.
abbrev some_digits : Str → Option ℕ
some_digits [] = none
some_digits (c ∷ s) = parse_from 0 (c ∷ s)

-- `str::parse::<usize>`
unfoldable pub parse_usize : Str → Option ℕ
unfolding parse_from
parse_usize [] = none
parse_usize (c ∷ s) = if c == b'+' then some_digits s else some_digits (c ∷ s)

parse_from-append :
    (s t : Str) (read : ℕ) → parse_from read (s ++ t) ≡ parse_from read s >>= (λ n. parse_from n t)
unfolding parse_from
parse_from-append [] t read = refl
parse_from-append (c ∷ s) t read = ground (arith, parse_from-append s t (read * 10 + (c - b'0')))

-- One more digit.
parse_from-digit :
    (read d : ℕ)
    → d < 10
    → read * 10 + d < 2 ^ 64
    → parse_from read ((b'0' + d) ∷ []) ≡ some (read * 10 + d)
unfolding parse_from
parse_from-digit read d h b = ground arith

parse_from-digits_of :
    (steps n : ℕ) → n ≤ steps → n < 2 ^ 64 → parse_from 0 (digits_of steps n) ≡ some n
parse_from-digits_of zero n h b =
    parse_from-digit 0 n (omega (arith, h)) (omega (arith, b)) ∙ ap some (omega arith)
parse_from-digits_of (suc steps) n h b =
    let ih = parse_from-digits_of steps (n / 10) in
    elim (Bool-cases (ltb n 10)) [
      | inl t ↦
          rw t (parse_from-digit 0 n (ground arith) (omega (arith, b)) ∙ ap some (omega arith))
      | inr t ↦ rw t (
          parse_from-append (digits_of steps (n / 10)) ((b'0' + n % 10) ∷ []) 0
          ∙ ap (λ o. o >>= (λ k. parse_from k ((b'0' + n % 10) ∷ [])))
              (ih (ground arith) (omega (arith, b)))
          ∙ parse_from-digit (n / 10) (n % 10) (omega arith) (omega (arith, b))
          ∙ ap some (omega arith))
    ]

digits_of-cons :
    (steps n : ℕ) → (c : ℕ) × (s : Str) × (digits_of steps n ≡ c ∷ s) × ((c == b'+') ≡ false)
digits_of-cons zero n = (b'0' + n, [], refl, ground arith)
digits_of-cons (suc steps) n =
    let (c, s, e, plus) = digits_of-cons steps (n / 10) in
    elim (Bool-cases (ltb n 10)) [
      | inl t ↦ (b'0' + n, [], rw t refl, ground arith)
      | inr t ↦ (c, s ++ (b'0' + n % 10) ∷ [], rw (t, e) refl, plus)
    ]

-- A number of 64 bits that is written in decimal is read back.
pub parse_usize-decimal : (n : ℕ) → n < 2 ^ 64 → parse_usize (decimal n) ≡ some n
unfolding parse_usize decimal
parse_usize-decimal n b =
    let (c, s, e, plus) = digits_of-cons n n in
    rw (e, plus) (ap (parse_from 0) (sym e) ∙ parse_from-digits_of n n (omega arith) b)

one_digit : (d : ℕ) → d < 10 → all visible ((b'0' + d) ∷ []) ≡ true
one_digit d h = ground arith

digits_of-visible : (steps n : ℕ) → n ≤ steps → all visible (digits_of steps n) ≡ true
digits_of-visible zero n h = one_digit n (omega (arith, h))
digits_of-visible (suc steps) n h =
    let ih = digits_of-visible steps (n / 10) in
    elim (Bool-cases (ltb n 10)) [
      | inl t ↦ rw t (one_digit n (ground arith))
      | inr t ↦ rw t (
          all-append visible (digits_of steps (n / 10)) ((b'0' + n % 10) ∷ [])
          ∙ ap₂ (λ a b. a && b) (ih (ground arith)) (one_digit (n % 10) (omega arith)))
    ]

pub decimal-visible : (n : ℕ) → all visible (decimal n) ≡ true
unfolding decimal
decimal-visible n = digits_of-visible n n (omega arith)
