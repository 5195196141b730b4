-- ===== src/Text.antt =====
-- `str` as the program uses it: a list of code points, cut at byte offsets of its UTF-8 encoding.
-- `none` stands for the panic of a slice that is out of range or splits a code point.
pub mod Slices
pub mod Split
pub mod Words
pub mod Numbers
use Prim.Native.Char.{code}
use Prim.Native.String
use Prim.Native.String.{String}
use myth.Prelude.{
  ℕ, zero, suc, ◌+◌, ◌-◌, ◌≤◌, ◌<◌, ◌≡◌, Bool, true, false, ◌&&◌, ◌||◌, Option, none, some, List,
  [], ◌∷◌, ◌++◌, ◌↔◌, refl, arith, ltb, leb, ◌==◌, if◌then◌else◌, ==_iff, any,
}
use mathlib.Core.Option

abbrev pub Str : Type 0
Str = List ℕ

-- The characters of printable ASCII
abbrev pub visible : ℕ → Bool
visible c = leb 32 c && leb c 126

-- A text literal of the source.
abbrev pub str : String → Str
str String.[] = []
str (String.◌∷◌ c s) = code c ∷ str s

-- `char::len_utf8`
abbrev pub len_utf8 : ℕ → ℕ
len_utf8 c = if ltb c 0x80 then 1 else if ltb c 0x800 then 2 else if ltb c 0x10000 then 3 else 4

-- `str::len`, in bytes
unfoldable pub len : Str → ℕ
len [] = 0
len (c ∷ s) = len_utf8 c + len s

-- `&s[i..]`
unfoldable pub slice_from : Str → ℕ → Option Str
slice_from [] i = if i == 0 then some [] else none
slice_from (c ∷ s) i =
    let rest = slice_from s (i - len_utf8 c) in
    if i == 0 then some (c ∷ s) else if ltb i (len_utf8 c) then none else rest

-- `&s[..i]`
unfoldable pub slice_to : Str → ℕ → Option Str
slice_to [] i = if i == 0 then some [] else none
slice_to (c ∷ s) i =
    let rest = Option.map (λ r. c ∷ r) (slice_to s (i - len_utf8 c)) in
    if i == 0 then some [] else if ltb i (len_utf8 c) then none else rest

-- `str::find` of one character, as a byte offset
unfoldable pub find : ℕ → Str → Option ℕ
find x [] = none
find x (c ∷ s) = if c == x then some 0 else Option.map (λ i. len_utf8 c + i) (find x s)

-- `str::contains` of one character
abbrev pub contains : ℕ → Str → Bool
contains x s = any (λ c. c == x) s

-- `==` on `str`
unfoldable pub str_eq : Str → Str → Bool
str_eq [] [] = true
str_eq (c ∷ s) (d ∷ t) = c == d && str_eq s t
str_eq _ _ = false

unfoldable pub starts_with : ℕ → Str → Bool
starts_with x [] = false
starts_with x (c ∷ s) = c == x

unfoldable pub ends_with : ℕ → Str → Bool
ends_with x [] = false
ends_with x (c ∷ []) = c == x
ends_with x (c ∷ d ∷ s) = ends_with x (d ∷ s)

cons_head : ℕ → List Str → List Str
cons_head c [] = (c ∷ []) ∷ []
cons_head c (p ∷ ps) = (c ∷ p) ∷ ps

-- `str::split` at one character
unfoldable pub split : ℕ → Str → List Str
unfolding cons_head
split x [] = [] ∷ []
split x (c ∷ s) = let rest = split x s in if c == x then [] ∷ rest else cons_head c rest

-- `trim_start_matches` and `trim_end_matches` of a set of characters
unfoldable pub trim_start : (ℕ → Bool) → Str → Str
trim_start p [] = []
trim_start p (c ∷ s) = let rest = trim_start p s in if p c then rest else c ∷ s

trim_cons : (ℕ → Bool) → ℕ → Str → Str
trim_cons p c [] = if p c then [] else c ∷ []
trim_cons p c (d ∷ s) = c ∷ d ∷ s

unfoldable pub trim_end : (ℕ → Bool) → Str → Str
unfolding trim_cons
trim_end p [] = []
trim_end p (c ∷ s) = trim_cons p c (trim_end p s)

-- `str::trim_matches`
unfoldable pub trim_matches : (ℕ → Bool) → Str → Str
unfolding trim_start trim_end
trim_matches p s = trim_end p (trim_start p s)

-- `char::is_whitespace`, the Unicode property White_Space
unfoldable pub is_whitespace : ℕ → Bool
is_whitespace c =
    (ltb 8 c && ltb c 14)
    || c == 0x20
    || c == 0x85
    || c == 0xa0
    || c == 0x1680
    || (ltb 0x1fff c && ltb c 0x200b)
    || c == 0x2028
    || c == 0x2029
    || c == 0x202f
    || c == 0x205f
    || c == 0x3000

add_word : Str → List Str → List Str
add_word [] ws = ws
add_word (c ∷ w) ws = (c ∷ w) ∷ ws

-- The word under way (`current`, in order) and the words after it.
words_from : Str → Str → List Str
words_from current [] = add_word current []
words_from current (c ∷ s) =
    let closed = add_word current (words_from [] s) in
    let longer = words_from (current ++ c ∷ []) s in if is_whitespace c then closed else longer

-- `str::split_whitespace`
unfoldable pub split_whitespace : Str → List Str
unfolding words_from add_word is_whitespace
split_whitespace s = words_from [] s

split_whitespace_test : split_whitespace (str " ab,  c ") ≡ str "ab," ∷ str "c" ∷ []
unfolding split_whitespace
split_whitespace_test = refl

split_test : split b'/' (str "/a//b") ≡ [] ∷ str "a" ∷ [] ∷ str "b" ∷ []
unfolding split
split_test = refl
