-- ===== src/Tokens/Stoi/RoundTrip.antt =====
-- `std::stoi` against `std::to_string`, and the range of what it returns.
use kuro_net.Prelude.{
  ℕ, zero, suc, ◌+◌, ◌*◌, ◌/◌, ◌%◌, ◌<◌, ◌≡◌, inl, inr, refl, ap, ◌∙◌, sym, true, false, [], ◌∷◌,
  nat_eq, ltb, ◌==◌, Bool-cases, arith,
}
use kuro_net.Prelude.Int.{ℤ, pos, neg, fits_int}
use kuro_net.Text.{Bytes, digits_onto, to_string}
use kuro_net.Exec.{ok}
use kuro_net.Tokens.Stoi.{
  is_space, is_digit, skip_space, digits_value, has_digit, in_range, signed, from_sign, stoi,
}

-- A text that starts with a digit.
abbrev Starts : Bytes → Type 0
Starts text = (c : ℕ) × (rest : Bytes) × (text ≡ c ∷ rest) × (is_digit c ≡ true)

-- The digits of a number, written in front of a text, have its value.
digits_onto-Starts : (fuel n : ℕ) (out : Bytes) → n < fuel → Starts (digits_onto fuel n out)
unfolding digits_onto
digits_onto-Starts zero n out enough = absurd (omega arith)
digits_onto-Starts (suc fuel) n out enough = elim (Bool-cases (ltb n 10)) [
  | inl last ↦ (48 + n % 10, out, rw last refl, ground arith)
  | inr more ↦ rw more (digits_onto-Starts fuel (n / 10) ((48 + n % 10) ∷ out) (ground arith))
]

-- A digit in front of a text.
digit-IsDigit : (n : ℕ) → is_digit (48 + n % 10) ≡ true
digit-IsDigit n = ground arith

digits_value-digit :
    (m n value : ℕ) (out : Bytes)
    → value ≡ m * 10 + n % 10
    → digits_value m ((48 + n % 10) ∷ out) ≡ digits_value value out
unfolding digits_value
digits_value-digit m n value out e =
    rw (digit-IsDigit n) (ap (λ k. digits_value k out) (omega arith))

digits_value-digits_onto :
    (fuel n : ℕ) (out : Bytes)
    → n < fuel
    → digits_value 0 (digits_onto fuel n out) ≡ digits_value n out
unfolding digits_onto
digits_value-digits_onto zero n out enough = absurd (omega arith)
digits_value-digits_onto (suc fuel) n out enough = elim (Bool-cases (ltb n 10)) [
  | inl last ↦ rw last (digits_value-digit 0 n n out (ground arith))
  | inr more ↦ rw more (
      digits_value-digits_onto fuel (n / 10) ((48 + n % 10) ∷ out) (ground arith)
      ∙ digits_value-digit (n / 10) n n out (omega arith))
]

-- A text that starts with a digit has no blank and no sign in front.
from_sign-digit :
    (c : ℕ) (rest : Bytes)
    → is_digit c ≡ true
    → stoi (c ∷ rest) ≡ in_range (pos (digits_value 0 (c ∷ rest)))
unfolding stoi from_sign signed
from_sign-digit c rest digit =
    let solid : is_space c ≡ false = ground arith in
    let no_minus : (c == b'-') ≡ false = ground arith in
    let no_plus : (c == b'+') ≡ false = ground arith in rw (solid, no_minus, no_plus, digit) refl

pub stoi-to_string : (n : ℕ) → stoi (to_string n) ≡ in_range (pos n)
unfolding to_string digits_value
stoi-to_string n =
    let (c, rest, e, digit) = digits_onto-Starts (n + 1) n [] (omega arith) in
    ap stoi e
    ∙ from_sign-digit c rest digit
    ∙ ap (λ text. in_range (pos (digits_value 0 text))) (sym e)
    ∙ ap (λ k. in_range (pos k)) (digits_value-digits_onto (n + 1) n [] (omega arith))

from_sign-minus :
    (c : ℕ) (rest : Bytes)
    → is_digit c ≡ true
    → stoi (b'-' ∷ c ∷ rest) ≡ in_range (neg (digits_value 0 (c ∷ rest)))
unfolding stoi from_sign signed
from_sign-minus c rest digit = rw digit refl

pub stoi-minus : (n : ℕ) → stoi (b'-' ∷ to_string n) ≡ in_range (neg n)
unfolding to_string digits_value
stoi-minus n =
    let (c, rest, e, digit) = digits_onto-Starts (n + 1) n [] (omega arith) in
    ap (λ text. stoi (b'-' ∷ text)) e
    ∙ from_sign-minus c rest digit
    ∙ ap (λ text. in_range (neg (digits_value 0 text))) (sym e)
    ∙ ap (λ k. in_range (neg k)) (digits_value-digits_onto (n + 1) n [] (omega arith))

-- What `std::stoi` returns fits an `int`.
in_range-fits : (y z : ℤ) → in_range y ≡ ok z → fits_int z ≡ true
unfolding in_range
in_range-fits y z h = elim (Bool-cases (fits_int y)) [
  | inl fits ↦ let same : y ≡ z = cc (rw fits at h) in ap fits_int (sym same) ∙ fits
  | inr off ↦ cc (rw off at h)
]

signed-fits : (sign : ℕ → ℤ) (text : Bytes) (z : ℤ) → signed sign text ≡ ok z → fits_int z ≡ true
unfolding signed
signed-fits sign text z h = elim (Bool-cases (has_digit text)) [
  | inl digits ↦ in_range-fits (sign (digits_value 0 text)) z (rw digits at h)
  | inr none_there ↦ cc (rw none_there at h)
]

from_sign-fits : (text : Bytes) (z : ℤ) → from_sign text ≡ ok z → fits_int z ≡ true
unfolding from_sign
from_sign-fits [] z h = cc h
from_sign-fits (c ∷ text) z h = elim (Bool-cases (c == b'-')) [
  | inl minus ↦ signed-fits neg text z (rw minus at h)
  | inr other ↦ elim (Bool-cases (c == b'+')) [
    | inl plus ↦ signed-fits pos text z (rw (other, plus) at h)
    | inr no_sign ↦ signed-fits pos (c ∷ text) z (rw (other, no_sign) at h)
  ]
]

pub stoi-fits : (text : Bytes) (z : ℤ) → stoi text ≡ ok z → fits_int z ≡ true
unfolding stoi
stoi-fits text z h = from_sign-fits (skip_space text) z h
