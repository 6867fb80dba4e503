-- ===== src/Prelude/Texts.antt =====
-- Texts walked by code points. The server compares and stores texts whole, splits them at single
-- ASCII characters and tests every character against an ASCII alphabet.
use Prim.Native.Nat.{ℕ, zero, suc, ◌+◌, ◌/◌, ◌%◌, ◌≤◌}
use mathlib.Core.Path.{◌≡◌, refl}
use native.Mathlib.Omega.{arith}
use Prim.Native.Char.{Char, code}
use Prim.Native.String
use Prim.Native.String.{String, [], ◌∷◌}
use mathlib.Core.Bool.{Bool, true, false, ◌&&◌, ◌||◌}
use mathlib.Core.Option.{Option, none, some}
use mathlib.Core.List.{List, [], ◌∷◌}
use sharp_oauth.Prelude.Tests.{ltb, leb, eqb, if◌then◌else◌}

-- A test on every code point. For a test that only ASCII passes this is also the test on every
-- byte of the UTF-8 form, whose other bytes are 0x80 and above.
unfoldable pub all_codes : (ℕ → Bool) → String → Bool
all_codes p [] = true
all_codes p (c ∷ s) = p (code c) && all_codes p s

unfoldable pub any_code : (ℕ → Bool) → String → Bool
any_code p [] = false
any_code p (c ∷ s) = p (code c) || any_code p s

unfoldable pub cons_first : Char → List String → List String
cons_first c [] = (c ∷ []) ∷ []
cons_first c (p ∷ ps) = (c ∷ p) ∷ ps

-- `str::split(sep)`: the pieces between the separators, empty ones included.
unfoldable pub split : ℕ → String → List String
unfolding cons_first
split sep [] = "" ∷ []
split sep (c ∷ s) = if eqb (code c) sep then "" ∷ split sep s else cons_first c (split sep s)

unfoldable pub is_empty : String → Bool
is_empty [] = true
is_empty (_ ∷ _) = false

-- `str::split_once(sep)`: what stands before the first separator, and what follows it.
unfoldable pub split_once : ℕ → String → Option (String × String)
split_once sep [] = none
split_once sep (c ∷ s) =
    if eqb (code c) sep
    then some ("", s)
    else elim (split_once sep s) [ none ↦ none | some (a, b) ↦ some (c ∷ a, b) ]

unfoldable pub starts_with_code : ℕ → String → Bool
starts_with_code k [] = false
starts_with_code k (c ∷ s) = eqb (code c) k

unfoldable pub ends_with_code : ℕ → String → Bool
ends_with_code k [] = false
ends_with_code k (c ∷ []) = eqb (code c) k
ends_with_code k (c ∷ d ∷ s) = ends_with_code k (d ∷ s)

-- `u8::is_ascii_alphanumeric`.
abbrev pub is_alphanumeric : ℕ → Bool
is_alphanumeric c =
    (leb b'0' c && leb c b'9') || ((leb b'A' c && leb c b'Z') || (leb b'a' c && leb c b'z'))

-- `[&str]::join(sep)`.
unfoldable pub join : String → List String → String
join sep [] = ""
join sep (x ∷ []) = x
join sep (x ∷ y ∷ ys) = String.◌++◌ x (String.◌++◌ sep (join sep (y ∷ ys)))

-- `&s[..n]`, for a text of ASCII characters that has as many.
unfoldable pub take_codes : ℕ → String → String
take_codes zero s = ""
take_codes (suc n) [] = ""
take_codes (suc n) (c ∷ s) = c ∷ take_codes n s

lower : ℕ → ℕ
lower c = if leb b'A' c && leb c b'Z' then c + 32 else c

-- `str::eq_ignore_ascii_case`.
unfoldable pub eq_ignore_ascii_case : String → String → Bool
unfolding lower
eq_ignore_ascii_case [] [] = true
eq_ignore_ascii_case [] (_ ∷ _) = false
eq_ignore_ascii_case (_ ∷ _) [] = false
eq_ignore_ascii_case (a ∷ s) (b ∷ t) =
    eqb (lower (code a)) (lower (code b)) && eq_ignore_ascii_case s t

-- `str::replace(c, by)` for one character.
unfoldable pub replace : ℕ → String → String → String
replace k by [] = ""
replace k by (c ∷ s) =
    if eqb (code c) k then String.◌++◌ by (replace k by s) else c ∷ replace k by s

keep_end : ℕ → Char → String → String
keep_end k c [] = if eqb (code c) k then "" else c ∷ ""
keep_end k c (d ∷ r) = c ∷ d ∷ r

-- `str::trim_end_matches(c)`.
unfoldable pub trim_end : ℕ → String → String
unfolding keep_end
trim_end k [] = ""
trim_end k (c ∷ s) = keep_end k c (trim_end k s)

-- One trailing `c`, if there is one, taken off.
unfoldable pub strip_suffix : ℕ → String → String
strip_suffix k [] = ""
strip_suffix k (c ∷ []) = if eqb (code c) k then "" else c ∷ ""
strip_suffix k (c ∷ d ∷ s) = c ∷ strip_suffix k (d ∷ s)

strip_all : List String → List String
unfolding strip_suffix
strip_all [] = []
strip_all (line ∷ []) = if is_empty line then [] else line ∷ []
strip_all (line ∷ next ∷ lines) = strip_suffix 13 line ∷ strip_all (next ∷ lines)

-- `str::lines`: without the line ends, and without the empty piece after the last of them. A
-- carriage return goes with the line feed that follows it.
unfoldable pub lines : String → List String
unfolding strip_all split
lines s = strip_all (split 10 s)

digit : ℕ → String
digit n =
    if eqb n 0
    then "0"
    else if eqb n 1
    then "1"
    else if eqb n 2
    then "2"
    else if eqb n 3
    then "3"
    else if eqb n 4
    then "4"
    else if eqb n 5
    then "5"
    else if eqb n 6
    then "6"
    else if eqb n 7
    then "7"
    else if eqb n 8
    then "8"
    else "9"

-- A number below 10 is one digit; the number itself is fuel enough, as each round divides by 10.
show_fuel : ℕ → ℕ → String
unfolding digit
show_fuel zero n = digit n
show_fuel (suc fuel) n = elim (ltb n 10) [
  | true ↦ digit n
  | false ↦ String.◌++◌ (show_fuel fuel (n / 10)) (digit (n % 10))
]

-- More fuel than the number changes nothing.
show_fuel_enough : (f g n : ℕ) → n ≤ f → n ≤ g → show_fuel f n ≡ show_fuel g n
unfolding show_fuel
show_fuel_enough zero zero n a b = refl
show_fuel_enough zero (suc g) n a b = ground arith
show_fuel_enough (suc f) zero n a b = ground arith
show_fuel_enough (suc f) (suc g) n a b = ground (arith, show_fuel_enough f g (n / 10))

-- `format!("{n}")`.
unfoldable pub show : ℕ → String
unfolding show_fuel digit
show n = show_fuel n n
