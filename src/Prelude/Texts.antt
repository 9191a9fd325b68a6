-- ===== src/Prelude/Texts.antt =====
-- Text that the program walks is a list of code points; text that it only compares is a `String`.
use Prim.Native.Char.{code}
use Prim.Native.Nat.{ℕ, zero, suc, ◌+◌, ◌-◌, ◌*◌, ◌/◌, ◌%◌, ◌≤◌, ◌<◌}
use Prim.Native.String
use Prim.Native.String.{String}
use mathlib.Core.Path.{◌≡◌, refl}
use mathlib.Core.Bool.{Bool, true, false, ◌&&◌, ◌||◌}
use mathlib.Core.Option.{Option, none, some}
use mathlib.Core.List.{List, [], ◌∷◌, ◌++◌, reverse}
use native.Mathlib.Omega.{arith}
use text.Mathlib.Text.{◌==◌ as text_eq}
use mathlib.Core.Logic.{inl, inr}
use secure_api.Prelude.Tests.{◌==◌, ltb, leb, if◌then◌else◌, Bool-cases}

abbrev pub Text : Type 0
Text = List ℕ

abbrev pub codes : String → Text
codes String.[] = []
codes (String.◌∷◌ c s) = code c ∷ codes s

-- equality of whole texts
abbrev pub str_eq : String → String → Bool
str_eq a b = text_eq a b

unfoldable pub teq : Text → Text → Bool
teq [] [] = true
teq (a ∷ s) (b ∷ t) = a == b && teq s t
teq _ _ = false

pub teq→eq : (s t : Text) → teq s t ≡ true → s ≡ t
unfolding teq
teq→eq [] [] h = refl
teq→eq (a ∷ s) (b ∷ t) h = ground (arith, teq→eq s t)
teq→eq [] (b ∷ t) h = cc
teq→eq (a ∷ s) [] h = cc

pub teq_refl : (s : Text) → teq s s ≡ true
unfolding teq
teq_refl [] = refl
teq_refl (a ∷ s) = ground (arith, teq_refl s)

-- x in xs
abbrev pub is_in : String → List String → Bool
is_in x [] = false
is_in x (y ∷ ys) = str_eq x y || is_in x ys

abbrev pub opt_eq : Option String → Option String → Bool
opt_eq none none = true
opt_eq (some a) (some b) = str_eq a b
opt_eq _ _ = false

-- s[:n]
unfoldable pub take_chars : ℕ → String → String
take_chars zero s = ""
take_chars (suc n) String.[] = ""
take_chars (suc n) (String.◌∷◌ c s) = String.◌∷◌ c (take_chars n s)

-- str(n), as code points: a number has fewer digits than the fuel
unfoldable pub digits_from : ℕ → ℕ → Text
digits_from zero n = []
digits_from (suc f) n =
    let front = digits_from f (n / 10) in
    if ltb n 10 then (b'0' + n) ∷ [] else front ++ (b'0' + n % 10) ∷ []

unfoldable pub decimal : ℕ → Text
unfolding digits_from
decimal n = digits_from (suc n) n

-- the number that decimal digits spell, after the digits of another
unfoldable pub read_from : ℕ → Text → ℕ
read_from acc [] = acc
read_from acc (c ∷ s) = read_from (acc * 10 + (c - b'0')) s

read_from-append : (acc : ℕ) (s t : Text) → read_from acc (s ++ t) ≡ read_from (read_from acc s) t
unfolding read_from
read_from-append acc [] t = refl
read_from-append acc (c ∷ s) t = read_from-append (acc * 10 + (c - b'0')) s t

read_from-digits_from : (f n : ℕ) → n < f → read_from 0 (digits_from f n) ≡ n
unfolding digits_from read_from
read_from-digits_from zero n h = omega arith
read_from-digits_from (suc f) n h = elim (Bool-cases (ltb n 10)) [
  | inl small ↦ rw small (omega arith)
  | inr large ↦
      let big : 10 ≤ n = ground arith in
      rw
        (
          large,
          read_from-append 0 (digits_from f (n / 10)) ((b'0' + n % 10) ∷ []),
          read_from-digits_from f (n / 10) (omega arith),
        )
        (omega arith)
]

-- Reading what is printed gives the number back.
pub read_from-decimal : (n : ℕ) → read_from 0 (decimal n) ≡ n
unfolding decimal
read_from-decimal n = read_from-digits_from (suc n) n (omega arith)

abbrev digit_string : ℕ → String
digit_string d =
    if d == 0
    then "0"
    else if d == 1
    then "1"
    else if d == 2
    then "2"
    else if d == 3
    then "3"
    else if d == 4
    then "4"
    else if d == 5
    then "5"
    else if d == 6
    then "6"
    else if d == 7
    then "7"
    else if d == 8
    then "8"
    else "9"

decimal_string_from : ℕ → ℕ → String
decimal_string_from zero n = ""
decimal_string_from (suc f) n =
    let front = decimal_string_from f (n / 10) in
    if ltb n 10 then digit_string n else String.◌++◌ front (digit_string (n % 10))

-- str(n)
unfoldable pub decimal_string : ℕ → String
unfolding decimal_string_from
decimal_string n = decimal_string_from (suc n) n

-- f"{prefix}{n}"
unfoldable pub numbered : String → ℕ → String
unfolding decimal_string
numbered prefix n = String.◌++◌ prefix (decimal_string n)

-- s.startswith(prefix)
unfoldable pub starts_with : Text → Text → Bool
starts_with [] s = true
starts_with (a ∷ p) [] = false
starts_with (a ∷ p) (b ∷ s) = a == b && starts_with p s

-- the ASCII characters that strip() takes off
abbrev pub is_space : ℕ → Bool
is_space c = c == 32 || leb 9 c && leb c 13 || leb 28 c && leb c 31

unfoldable pub strip_left : Text → Text
strip_left [] = []
strip_left (a ∷ s) = let rest = strip_left s in if is_space a then rest else a ∷ s

-- s.strip(), for the white space of ASCII
unfoldable pub strip : Text → Text
unfolding strip_left
strip s = reverse (strip_left (reverse (strip_left s)))
