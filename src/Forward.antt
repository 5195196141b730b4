-- ===== src/Forward.antt =====
-- src/forward.rs: why a filter did not match, and the set of methods that were attempted.
pub mod Allow
pub mod Tried
pub mod Answer
use Prim.Native.Nat.{bit_and, bit_or}
use myth.Prelude.{ℕ, ◌^◌, ◌++◌, [], ◌∷◌, ◌==◌, if◌then◌else◌, not, ◌≡◌, refl}
use myth.Text.{Str, str}
use myth.Http.{
  StandardMethod, get, post, put, delete, head, options, connect, patch, trace, standard_name,
}

-- A `u16` with one bit for each method.
pub record AttemptedMethods : Type 0 where
  pub bits : ℕ

abbrev pub attempt_shift : StandardMethod → ℕ
attempt_shift get = 0
attempt_shift post = 1
attempt_shift put = 2
attempt_shift delete = 3
attempt_shift head = 4
attempt_shift options = 5
attempt_shift connect = 6
attempt_shift patch = 7
attempt_shift trace = 8

-- `AttemptedMethods::GET` and the others: `1 << shift`
abbrev pub attempted : StandardMethod → AttemptedMethods
attempted m = record { bits = 2 ^ attempt_shift m }

unfoldable pub attempted_or : AttemptedMethods → AttemptedMethods → AttemptedMethods
attempted_or a b = record { bits = bit_or a.bits b.bits }

unfoldable pub attempted_and : AttemptedMethods → AttemptedMethods → AttemptedMethods
attempted_and a b = record { bits = bit_and a.bits b.bits }

pub data Forwarding : Type 0 where
  not_found : Forwarding
  method_not_allowed : AttemptedMethods → Forwarding

unfoldable pub combine : Forwarding → Forwarding → Forwarding
combine not_found other = other
combine (method_not_allowed a) not_found = method_not_allowed a
combine (method_not_allowed a) (method_not_allowed b) = method_not_allowed (attempted_or a b)

-- What goes between the text so far and a further method.
separator : Str → Str
separator [] = []
separator (_ ∷ _) = str ", "

-- `check_method!`
unfoldable pub check_method : StandardMethod → AttemptedMethods → Str → Str
unfolding attempted_and separator
check_method m self string =
    if not ((attempted_and self (attempted m)).bits == 0)
    then (string ++ separator string) ++ standard_name m
    else string

-- The text of `into_header_value`.
unfoldable pub allow_text : AttemptedMethods → Str
unfolding check_method
allow_text self = check_method trace self (
    check_method patch self (
      check_method connect self (
        check_method options self (
          check_method head self (
            check_method delete self
              (check_method put self (check_method post self (check_method get self []))))))))

allow_text_test : allow_text (attempted_or (attempted post) (attempted get)) ≡ str "GET, POST"
unfolding allow_text attempted_or
allow_text_test = refl
