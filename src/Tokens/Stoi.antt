-- ===== src/Tokens/Stoi.antt =====
-- `std::stoi`: blanks, a sign, and the digits up to the first byte that is none.
pub mod RoundTrip
pub mod Defined
use kuro_net.Prelude.{
  ℕ, ◌+◌, ◌-◌, ◌*◌, Bool, false, ◌&&◌, ◌||◌, [], ◌∷◌, nat_eq, leb, ◌==◌, if◌then◌else◌,
}
use kuro_net.Prelude.Int.{ℤ, pos, neg, fits_int}
use kuro_net.Text.{Bytes, codes}
use kuro_net.Exec.{Outcome, ok, throw, invalid_argument, out_of_range}

abbrev pub is_space : ℕ → Bool
is_space c = c == 32 || (leb 9 c && leb c 13)

abbrev pub is_digit : ℕ → Bool
is_digit c = leb b'0' c && leb c b'9'

skip_space : Bytes → Bytes
skip_space [] = []
skip_space (c ∷ text) = let rest = skip_space text in if is_space c then rest else c ∷ text

pub digits_value : ℕ → Bytes → ℕ
digits_value n [] = n
digits_value n (c ∷ text) =
    let rest = digits_value (n * 10 + (c - b'0')) text in if is_digit c then rest else n

has_digit : Bytes → Bool
has_digit [] = false
has_digit (c ∷ _) = is_digit c

unfoldable pub in_range : ℤ → Outcome ℤ
in_range z = if fits_int z then ok z else throw (out_of_range (codes "stoi"))

pub signed : (ℕ → ℤ) → Bytes → Outcome ℤ
unfolding in_range
signed sign text =
    if has_digit text
    then in_range (sign (digits_value 0 text))
    else throw (invalid_argument (codes "stoi"))

pub from_sign : Bytes → Outcome ℤ
unfolding signed
from_sign [] = throw (invalid_argument (codes "stoi"))
from_sign (c ∷ text) =
    if c == b'-'
    then signed neg text
    else if c == b'+'
    then signed pos text
    else signed pos (c ∷ text)

unfoldable pub stoi : Bytes → Outcome ℤ
unfolding from_sign skip_space has_digit digits_value
stoi text = from_sign (skip_space text)
