-- ===== src/Text.antt =====
-- The methods of Rust's `str` that the controller calls: `trim`, `split`, `split_whitespace`,
-- `starts_with` and `ends_with` on a character.
pub mod Laws
pub mod Trim
pub mod Decimal
use Prim.Native.String.{[], ◌∷◌}
use Prim.Native.Nat.{◌/◌, ◌%◌}
use ipmaze.Base.{
  zero, suc, ltb, ℕ, Char, code, String, Bool, true, false, not, ◌&&◌, ◌||◌, Option, none, some,
  List, [], ◌∷◌, leb, ◌=ℕ◌, is_some_and, if◌then◌else◌, ◌<>◌,
}

-- `char::is_whitespace`: Unicode's White_Space.
unfoldable pub is_whitespace : Char → Bool
is_whitespace c =
    (leb 9 n && leb n 13)
    || n =ℕ 32
    || n =ℕ 0x85
    || n =ℕ 0xa0
    || n =ℕ 0x1680
    || (leb 0x2000 n && leb n 0x200a)
    || n =ℕ 0x2028
    || n =ℕ 0x2029
    || n =ℕ 0x202f
    || n =ℕ 0x205f
    || n =ℕ 0x3000
  where
    n : ℕ
    n = code c

abbrev pub is_blank : String → Bool
is_blank [] = true
is_blank (c ∷ s) = false

unfoldable pub trim_start : String → String
trim_start [] = []
trim_start (c ∷ s) = if is_whitespace c then trim_start s else c ∷ s

-- Drops a character when it is whitespace and nothing is left behind it.
abbrev pub close_end : Char → String → String
close_end c [] = if is_whitespace c then [] else c ∷ []
close_end c (d ∷ s) = c ∷ d ∷ s

unfoldable pub trim_end : String → String
trim_end [] = []
trim_end (c ∷ s) = close_end c (trim_end s)

unfoldable pub trim : String → String
trim s = trim_end (trim_start s)

-- Puts a character in front of the first part.
abbrev pub cons_first : Char → List String → List String
cons_first c [] = (c ∷ []) ∷ []
cons_first c (p ∷ ps) = (c ∷ p) ∷ ps

-- `str::split` on the characters that a test accepts.
unfoldable pub split : (Char → Bool) → String → List String
split p [] = "" ∷ []
split p (c ∷ s) = let rest = split p s in if p c then "" ∷ rest else cons_first c rest

abbrev pub drop_blank : List String → List String
drop_blank [] = []
drop_blank (p ∷ ps) = if is_blank p then drop_blank ps else p ∷ drop_blank ps

unfoldable pub split_whitespace : String → List String
split_whitespace s = drop_blank (split is_whitespace s)

abbrev pub first_char : String → Option Char
first_char [] = none
first_char (c ∷ s) = some c

unfoldable pub last_char : String → Option Char
last_char [] = none
last_char (c ∷ []) = some c
last_char (c ∷ d ∷ s) = last_char (d ∷ s)

abbrev pub char_is : ℕ → Char → Bool
char_is n c = code c =ℕ n

abbrev pub all_chars : (Char → Bool) → String → Bool
all_chars p [] = true
all_chars p (c ∷ s) = p c && all_chars p s

-- The parts put together again, with a separator between neighbours.
abbrev pub join : String → List String → String
join d [] = ""
join d (p ∷ []) = p
join d (p ∷ q ∷ ps) = p <> (d <> join d (q ∷ ps))

-- `str::to_lowercase` on ASCII letters; any other character stays.
abbrev lower_table : List (ℕ × Char)
lower_table =
    (b'A', "a")
    ∷ (b'B', "b")
    ∷ (b'C', "c")
    ∷ (b'D', "d")
    ∷ (b'E', "e")
    ∷ (b'F', "f")
    ∷ (b'G', "g")
    ∷ (b'H', "h")
    ∷ (b'I', "i")
    ∷ (b'J', "j")
    ∷ (b'K', "k")
    ∷ (b'L', "l")
    ∷ (b'M', "m")
    ∷ (b'N', "n")
    ∷ (b'O', "o")
    ∷ (b'P', "p")
    ∷ (b'Q', "q")
    ∷ (b'R', "r")
    ∷ (b'S', "s")
    ∷ (b'T', "t")
    ∷ (b'U', "u")
    ∷ (b'V', "v")
    ∷ (b'W', "w")
    ∷ (b'X', "x")
    ∷ (b'Y', "y")
    ∷ (b'Z', "z")
    ∷ []

unfoldable pub lower_char : Char → List (ℕ × Char) → Char
lower_char c [] = c
lower_char c ((n, d) ∷ more) = if char_is n c then d else lower_char c more

unfoldable pub to_lowercase : String → String
to_lowercase [] = []
to_lowercase (c ∷ s) = lower_char c lower_table ∷ to_lowercase s

abbrev pub digit : ℕ → Char
digit n =
    if n =ℕ 0
    then "0"
    else if n =ℕ 1
    then "1"
    else if n =ℕ 2
    then "2"
    else if n =ℕ 3
    then "3"
    else if n =ℕ 4
    then "4"
    else if n =ℕ 5
    then "5"
    else if n =ℕ 6
    then "6"
    else if n =ℕ 7
    then "7"
    else if n =ℕ 8
    then "8"
    else "9"

-- The decimal digits in front of a text. The fuel is above the number, so it suffices.
unfoldable pub decimal_onto : ℕ → ℕ → String → String
decimal_onto zero n text = text
decimal_onto (suc fuel) n text =
    let next : String = digit (n % 10) ∷ text in
    let more = decimal_onto fuel (n / 10) next in if ltb n 10 then next else more

-- `Display` of an unsigned integer.
unfoldable pub decimal : ℕ → String
decimal n = decimal_onto (suc n) n ""
