-- ===== src/Tokens/Stoi/Defined.antt =====
-- `std::stoi` returns or throws.
use kuro_net.Prelude.{ℕ, ◌≢◌, inl, inr, [], ◌∷◌, nat_eq, ◌==◌, Bool-cases}
use kuro_net.Prelude.Int.{ℤ, fits_int, pos, neg}
use kuro_net.Text.{Bytes}
use kuro_net.Exec.{undefined}
use kuro_net.Tokens.Stoi.{stoi, signed, from_sign, in_range, has_digit, skip_space, digits_value}

in_range_defined : (z : ℤ) → in_range z ≢ undefined
unfolding in_range
in_range_defined z e = elim (Bool-cases (fits_int z)) [
  | inl fits ↦ cc (rw fits at e)
  | inr over ↦ cc (rw over at e)
]

signed_defined : (sign : ℕ → ℤ) (text : Bytes) → signed sign text ≢ undefined
unfolding signed
signed_defined sign text e = elim (Bool-cases (has_digit text)) [
  | inl digit ↦ in_range_defined (sign (digits_value 0 text)) (rw digit at e)
  | inr none_there ↦ cc (rw none_there at e)
]

from_sign_defined : (text : Bytes) → from_sign text ≢ undefined
unfolding from_sign
from_sign_defined [] e = cc
from_sign_defined (c ∷ text) e = elim (Bool-cases (c == b'-')) [
  | inl minus ↦ signed_defined neg text (rw minus at e)
  | inr more ↦ elim (Bool-cases (c == b'+')) [
    | inl plus ↦ signed_defined pos text (rw (more, plus) at e)
    | inr bare ↦ signed_defined pos (c ∷ text) (rw (more, bare) at e)
  ]
]

pub stoi_defined : (text : Bytes) → stoi text ≢ undefined
unfolding stoi
stoi_defined text = from_sign_defined (skip_space text)
