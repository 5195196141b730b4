-- ===== src/Forward/Allow.antt =====
-- src/forward.rs: what the text of the header `Allow` says of a set of methods.
use Prim.Native.Nat.{max}
use mathlib.Core.Logic.{ite, if_pos, if_neg}
use mathlib.Core.Path.{ap₂}
use mathlib.Core.List.{append-nil, append_assoc}
use native.Mathlib.Nat.{one-le-pow}
use native.Mathlib.Decide.{ℕ_discrete}
use myth.Prelude.{
  ℕ, zero, suc, ◌^◌, ◌*◌, ◌≡◌, refl, sym, ap, ◌∙◌, Bool, true, false, not, ◌==◌, if◌then◌else◌,
  List, [], ◌∷◌, ◌++◌, map, arith, ◌&&◌, all, all-append,
}
use myth.Prelude.Bits.{bit, bit-bit_or, bit_and_power, bit-power_self, bit-power_other}
use myth.Text.{Str, str, visible}
use myth.Http.{
  StandardMethod, get, post, put, delete, head, options, connect, patch, trace, standard_name,
}
use myth.Forward.{
  AttemptedMethods, attempt_shift, attempted, attempted_or, attempted_and, separator, check_method,
  allow_text,
}

-- The order of the macro `all_methods`.
abbrev pub all_methods : List StandardMethod
all_methods = get ∷ post ∷ put ∷ delete ∷ head ∷ options ∷ connect ∷ patch ∷ trace ∷ []

-- The method that stands at a place.
at_place : List StandardMethod → ℕ → StandardMethod
at_place [] k = get
at_place (m ∷ ms) zero = m
at_place (m ∷ ms) (suc k) = at_place ms k

at_place-attempt_shift : (m : StandardMethod) → at_place all_methods (attempt_shift m) ≡ m
unfolding at_place
at_place-attempt_shift get = refl
at_place-attempt_shift post = refl
at_place-attempt_shift put = refl
at_place-attempt_shift delete = refl
at_place-attempt_shift head = refl
at_place-attempt_shift options = refl
at_place-attempt_shift connect = refl
at_place-attempt_shift patch = refl
at_place-attempt_shift trace = refl

attempt_shift-injective : (m n : StandardMethod) → attempt_shift m ≡ attempt_shift n → m ≡ n
attempt_shift-injective m n e =
    sym (at_place-attempt_shift m) ∙ ap (at_place all_methods) e ∙ at_place-attempt_shift n

pub same_dec : (m n : StandardMethod) → Dec (m ≡ n)
same_dec m n = elim (ℕ_discrete (attempt_shift m) (attempt_shift n)) [
  | yes e ↦ yes (attempt_shift-injective m n e)
  | no d ↦ no (λ e. d (ap attempt_shift e))
]

abbrev pub is_in : StandardMethod → List StandardMethod → Bool
is_in m [] = false
is_in m (n ∷ ns) = ite (same_dec m n) true (is_in m ns)

-- The elements that pass the test, in their order.
abbrev pub select : (StandardMethod → Bool) → List StandardMethod → List StandardMethod
select p [] = []
select p (m ∷ ms) = if p m then m ∷ select p ms else select p ms

-- Each text after a comma and a space.
abbrev further : List Str → Str
further [] = []
further (s ∷ ss) = (str ", " ++ s) ++ further ss

-- The texts with a comma and a space between any two.
abbrev pub comma_join : List Str → Str
comma_join [] = []
comma_join (s ∷ ss) = s ++ further ss

attempts : AttemptedMethods → StandardMethod → Bool
attempts self m = not ((attempted_and self (attempted m)).bits == 0)

-- A digit as a truth value.
abbrev pub digit : Bool → ℕ
digit true = 1
digit false = 0

-- The bits are those of the methods of a list.
abbrev pub Marks : AttemptedMethods → List StandardMethod → Type 0
Marks self ms = (m : StandardMethod) → bit (attempt_shift m) self.bits ≡ digit (is_in m ms)

pub attempted-Marks : (n : StandardMethod) → Marks (attempted n) (n ∷ [])
attempted-Marks n m = elim (same_dec m n) [
  | yes e ↦
      rw (← e) (bit-power_self (attempt_shift m))
      ∙ ap digit (sym (if_pos (same_dec m n) e true false))
  | no d ↦
      bit-power_other (attempt_shift m) (attempt_shift n) (λ e. d (attempt_shift-injective m n e))
      ∙ ap digit (sym (if_neg (same_dec m n) d true false))
]

is_in-append :
    (m : StandardMethod) (ms ns : List StandardMethod)
    → digit (is_in m (ms ++ ns)) ≡ max (digit (is_in m ms)) (digit (is_in m ns))
is_in-append m [] ns = max_zero (is_in m ns)
  where
    max_zero : (b : Bool) → digit b ≡ max 0 (digit b)
    max_zero true = refl
    max_zero false = refl
is_in-append m (n ∷ ms) ns = elim (same_dec m n) [
  | yes e ↦
      ap digit (if_pos (same_dec m n) e true (is_in m (ms ++ ns)))
      ∙ max_one (is_in m ns)
      ∙ ap (λ b. max (digit b) (digit (is_in m ns)))
          (sym (if_pos (same_dec m n) e true (is_in m ms)))
  | no d ↦
      ap digit (if_neg (same_dec m n) d true (is_in m (ms ++ ns)))
      ∙ is_in-append m ms ns
      ∙ ap (λ b. max (digit b) (digit (is_in m ns)))
          (sym (if_neg (same_dec m n) d true (is_in m ms)))
]
  where
    max_one : (b : Bool) → 1 ≡ max 1 (digit b)
    max_one true = refl
    max_one false = refl

pub attempted_or-Marks :
    (a b : AttemptedMethods) (ms ns : List StandardMethod)
    → Marks a ms
    → Marks b ns
    → Marks (attempted_or a b) (ms ++ ns)
unfolding attempted_or
attempted_or-Marks a b ms ns h k m =
    bit-bit_or (attempt_shift m) a.bits b.bits ∙ ap₂ max (h m) (k m) ∙ sym (is_in-append m ms ns)

attempts-Marks :
    (self : AttemptedMethods) (ms : List StandardMethod)
    → Marks self ms
    → (m : StandardMethod) → attempts self m ≡ is_in m ms
unfolding attempts attempted_and
attempts-Marks self ms h m =
    ap (λ b. not (b == 0))
      (bit_and_power (attempt_shift m) self.bits ∙ ap (λ d. d * 2 ^ attempt_shift m) (h m))
    ∙ of_digit m (is_in m ms)
  where
    of_digit : (n : StandardMethod) (b : Bool) → not (digit b * 2 ^ attempt_shift n == 0) ≡ b
    of_digit n false = ground arith
    of_digit n true = ground (arith, one-le-pow (attempt_shift n) 2 (omega arith))

-- The text so far is not empty, or is.
abbrev extended : Str → List Str → Str
extended [] names = comma_join names
extended (c ∷ s) names = (c ∷ s) ++ further names

-- `check_method!` for each of the methods, in their order.
check_all : AttemptedMethods → List StandardMethod → Str → Str
check_all self [] string = string
check_all self (m ∷ ms) string = check_all self ms (check_method m self string)

extended-nil : (string : Str) → extended string [] ≡ string
extended-nil [] = refl
extended-nil (c ∷ s) = append-nil (c ∷ s)

named :
    (m : StandardMethod) (names : List Str)
    → extended (standard_name m) names ≡ standard_name m ++ further names
named get names = refl
named post names = refl
named put names = refl
named delete names = refl
named head names = refl
named options names = refl
named connect names = refl
named patch names = refl
named trace names = refl

extended-name :
    (string : Str) (m : StandardMethod) (names : List Str)
    → extended ((string ++ separator string) ++ standard_name m) names
      ≡ extended string (standard_name m ∷ names)
unfolding separator
extended-name [] m names = named m names
extended-name (c ∷ s) m names =
    ap (λ t. c ∷ t ++ further names) (append_assoc s (str ", ") (standard_name m))
    ∙ ap (λ t. c ∷ t) (append_assoc s (str ", " ++ standard_name m) (further names))

check_all-extended :
    (self : AttemptedMethods) (ms : List StandardMethod) (string : Str)
    → check_all self ms string ≡ extended string (map standard_name (select (attempts self) ms))
unfolding check_all check_method attempts
check_all-extended self [] string = sym (extended-nil string)
check_all-extended self (m ∷ ms) string =
    one_more (attempts self m) (λ s. check_all-extended self ms s)
  where
    one_more :
        (b : Bool)
        → ((s : Str)
            → check_all self ms s ≡ extended s (map standard_name (select (attempts self) ms)))
        → check_all self ms (if b then (string ++ separator string) ++ standard_name m else string)
          ≡ extended string (
              map standard_name
                (if b then m ∷ select (attempts self) ms else select (attempts self) ms))
    one_more true rest =
        rest ((string ++ separator string) ++ standard_name m)
        ∙ extended-name string m (map standard_name (select (attempts self) ms))
    one_more false rest = rest string

select-same :
    (p q : StandardMethod → Bool) (ms : List StandardMethod)
    → ((m : StandardMethod) → p m ≡ q m)
    → select p ms ≡ select q ms
select-same p q [] h = refl
select-same p q (m ∷ ms) h =
    ap₂ (λ b rest. if b then m ∷ rest else rest) (h m) (select-same p q ms h)

allow_text-select :
    (self : AttemptedMethods)
    → allow_text self ≡ comma_join (map standard_name (select (attempts self) all_methods))
unfolding allow_text check_all
allow_text-select self = check_all-extended self all_methods []

standard_name-visible : (m : StandardMethod) → all visible (standard_name m) ≡ true
standard_name-visible get = refl
standard_name-visible post = refl
standard_name-visible put = refl
standard_name-visible delete = refl
standard_name-visible head = refl
standard_name-visible options = refl
standard_name-visible connect = refl
standard_name-visible patch = refl
standard_name-visible trace = refl

further-visible : (ms : List StandardMethod) → all visible (further (map standard_name ms)) ≡ true
further-visible [] = refl
further-visible (m ∷ ms) =
    all-append visible (standard_name m) (further (map standard_name ms))
    ∙ ap₂ (λ a b. a && b) (standard_name-visible m) (further-visible ms)

comma_join-visible :
    (ms : List StandardMethod) → all visible (comma_join (map standard_name ms)) ≡ true
comma_join-visible [] = refl
comma_join-visible (m ∷ ms) =
    all-append visible (standard_name m) (further (map standard_name ms))
    ∙ ap₂ (λ a b. a && b) (standard_name-visible m) (further-visible ms)

pub allow_text-visible : (self : AttemptedMethods) → all visible (allow_text self) ≡ true
allow_text-visible self =
    ap (all visible) (allow_text-select self)
    ∙ comma_join-visible (select (attempts self) all_methods)

-- The header `Allow` that is made of the set of a list of methods names just the methods of the list, in
-- the order of the macro `all_methods` and each once, with a comma and a space between any two.
pub allow_text_lem :
    (self : AttemptedMethods) (ms : List StandardMethod)
    → Marks self ms
    → allow_text self ≡ comma_join (map standard_name (select (λ m. is_in m ms) all_methods))
allow_text_lem self ms h =
    allow_text-select self
    ∙ ap (λ l. comma_join (map standard_name l))
        (select-same (attempts self) (λ m. is_in m ms) all_methods (attempts-Marks self ms h))
