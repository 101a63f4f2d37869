-- ===== src/Text.antt =====
-- `std::string` as a list of bytes: the operations of the standard library that the program calls,
-- in the cases in which it calls them. `none` is `std::string::npos`.
pub mod Find
pub mod Trim
use Prim.Native.Char.{code}
use kuro_net.Prelude.{
  ℕ, zero, suc, ◌+◌, ◌/◌, ◌%◌, String, Bool, true, false, ◌&&◌, ◌||◌, Option, none, some, List, [],
  ◌∷◌, ◌++◌, nat_eq, ltb, ◌==◌, if◌then◌else◌, drop, take, length,
}
use mathlib.Core.Option

abbrev pub Bytes : Type 0
Bytes = List ℕ

-- The bytes of an ASCII literal.
abbrev pub codes : String → Bytes
codes String.[] = []
codes (String.◌∷◌ letter text) = code letter ∷ codes text

abbrev pub is_empty : Bytes → Bool
is_empty [] = true
is_empty (_ ∷ _) = false

unfoldable pub is_prefix : Bytes → Bytes → Bool
is_prefix [] text = true
is_prefix (k ∷ key) [] = false
is_prefix (k ∷ key) (c ∷ text) = k == c && is_prefix key text

-- `text.find(key)`: the first place.
unfoldable pub find : Bytes → Bytes → Option ℕ
unfolding is_prefix
find [] key = if is_prefix key [] then some 0 else none
find (c ∷ text) key = if is_prefix key (c ∷ text) then some 0 else Option.map suc (find text key)

-- `text.find(key, start)`.
unfoldable pub find_from : Bytes → Bytes → ℕ → Option ℕ
unfolding find
find_from text key start = Option.map (λ i. start + i) (find (drop start text) key)

-- `text.rfind(key)`: the last place.
unfoldable pub rfind : Bytes → Bytes → Option ℕ
unfolding is_prefix
rfind [] key = if is_prefix key [] then some 0 else none
rfind (c ∷ text) key = elim (rfind text key) [
  | some i ↦ some (suc i)
  | none ↦ if is_prefix key (c ∷ text) then some 0 else none
]

-- `text.substr(start, count)` for `start <= text.size()`.
abbrev pub substr : Bytes → ℕ → ℕ → Bytes
substr text start count = take count (drop start text)

unfoldable pub elem : ℕ → Bytes → Bool
elem c [] = false
elem c (x ∷ xs) = c == x || elem c xs

-- `text.find_last_not_of(set)`.
unfoldable pub find_last_not_of : Bytes → Bytes → Option ℕ
unfolding elem
find_last_not_of [] set = none
find_last_not_of (c ∷ text) set = elim (find_last_not_of text set) [
  | some i ↦ some (suc i)
  | none ↦ if elem c set then none else some 0
]

-- `text.erase(std::remove(text.begin(), text.end(), b), text.end())`.
unfoldable pub erase_byte : ℕ → Bytes → Bytes
erase_byte b [] = []
erase_byte b (c ∷ text) = let rest = erase_byte b text in if c == b then rest else c ∷ rest

-- `std::to_string` of a number without sign: the digits, lowest first, then turned round. A
-- number has no more digits than its value plus one.
unfoldable pub digits_onto : ℕ → ℕ → Bytes → Bytes
digits_onto zero n out = out
digits_onto (suc fuel) n out =
    let digit = 48 + n % 10 in
    let rest = digits_onto fuel (n / 10) (digit ∷ out) in if ltb n 10 then digit ∷ out else rest

unfoldable pub to_string : ℕ → Bytes
unfolding digits_onto
to_string n = digits_onto (n + 1) n []
