-- ===== src/Text/Decimal.antt =====
-- The decimal digits of a number, read back.
use Prim.Native.String.{[], ◌∷◌}
use Prim.Native.Nat.{◌/◌, ◌%◌}
use text.Mathlib.TextLemmas.{nil-append, cons-append}
use ipmaze.Base.{
  zero, suc, ltb, ℕ, Char, code, String, Bool, true, ◌&&◌, leb, ◌≡◌, refl, ap, ◌≤◌, ◌∙◌, ◌<◌, ◌+◌,
  ◌*◌, ◌-◌, if◌then◌else◌, ◌<>◌, arith, Bool-cases, inl, inr,
}
use ipmaze.Text.{digit, decimal_onto, decimal}

abbrev is_digit : Char → Bool
is_digit c = leb 48 (code c) && leb (code c) 57

-- The number whose digits follow those of `n` in the text, up to what is no digit.
unfoldable pub read_onto : ℕ → String → ℕ
read_onto n [] = n
read_onto n (c ∷ text) =
    let rest = read_onto (n * 10 + (code c - 48)) text in if is_digit c then rest else n

digit_value : (n : ℕ) → n < 10 → (code (digit n) - 48 ≡ n) × (is_digit (digit n) ≡ true)
digit_value zero h = (refl, refl)
digit_value (suc zero) h = (refl, refl)
digit_value (suc (suc zero)) h = (refl, refl)
digit_value (suc (suc (suc zero))) h = (refl, refl)
digit_value (suc (suc (suc (suc zero)))) h = (refl, refl)
digit_value (suc (suc (suc (suc (suc zero))))) h = (refl, refl)
digit_value (suc (suc (suc (suc (suc (suc zero)))))) h = (refl, refl)
digit_value (suc (suc (suc (suc (suc (suc (suc zero))))))) h = (refl, refl)
digit_value (suc (suc (suc (suc (suc (suc (suc (suc zero)))))))) h = (refl, refl)
digit_value (suc (suc (suc (suc (suc (suc (suc (suc (suc zero))))))))) h = (refl, refl)
digit_value (suc (suc (suc (suc (suc (suc (suc (suc (suc (suc n)))))))))) h = absurd (omega arith)

-- A digit in front is read first.
read_onto-digit :
    (n d : ℕ) (text : String) → d < 10 → read_onto n (digit d ∷ text) ≡ read_onto (n * 10 + d) text
unfolding read_onto
read_onto-digit n d text h = let (value, is) = digit_value d h in rw (is, value) refl

read_onto-decimal_onto :
    (fuel n : ℕ) (text : String)
    → n < fuel
    → read_onto 0 (decimal_onto fuel n text) ≡ read_onto n text
unfolding decimal_onto
read_onto-decimal_onto zero n text h = absurd (omega arith)
read_onto-decimal_onto (suc fuel) n text h = elim (Bool-cases (ltb n 10)) [
  | inl small ↦ rw small (
      let is_small : n < 10 = ground arith in
      read_onto-digit 0 (n % 10) text (omega arith) ∙ ap (λ m. read_onto m text) (omega arith))
  | inr large ↦ rw large (
      let is_large : 10 ≤ n = ground arith in
      read_onto-decimal_onto fuel (n / 10) (digit (n % 10) ∷ text) (omega arith)
      ∙ read_onto-digit (n / 10) (n % 10) text (omega arith)
      ∙ ap (λ m. read_onto m text) (omega arith))
]

-- What follows the digits may be added before or after.
decimal_onto-append :
    (fuel n : ℕ) (text more : String)
    → decimal_onto fuel n text <> more ≡ decimal_onto fuel n (text <> more)
unfolding decimal_onto
decimal_onto-append zero n text more = refl
decimal_onto-append (suc fuel) n text more = elim (Bool-cases (ltb n 10)) [
  | inl small ↦ rw small (cons-append (digit (n % 10)) text more)
  | inr large ↦ rw large (
      decimal_onto-append fuel (n / 10) (digit (n % 10) ∷ text) more
      ∙ ap (decimal_onto fuel (n / 10)) (cons-append (digit (n % 10)) text more))
]

pub read_onto-decimal : (n : ℕ) (more : String) → read_onto 0 (decimal n <> more) ≡ read_onto n more
unfolding decimal
read_onto-decimal n more =
    ap (read_onto 0)
      (decimal_onto-append (suc n) n "" more ∙ ap (decimal_onto (suc n) n) (nil-append more))
    ∙ read_onto-decimal_onto (suc n) n more (omega arith)
