-- ===== src/Text/Trim.antt =====
-- Laws of the search from the end, and of the removal of a byte.
use kuro_net.Prelude.{
  ℕ, ◌≡◌, refl, true, false, none, some, [], ◌∷◌, ◌++◌, nat_eq, length, All, arith,
}
use kuro_net.Text.{Bytes, elem, find_last_not_of, erase_byte}

-- Behind the last byte outside of the set only bytes of the set follow.
pub find_last_not_of_blanks :
    (set blanks : Bytes) → All (λ b. elem b set ≡ true) blanks → find_last_not_of blanks set ≡ none
unfolding find_last_not_of
find_last_not_of_blanks set [] all = refl
find_last_not_of_blanks set (b ∷ blanks) all =
    ground (arith, find_last_not_of_blanks set blanks all.1)

pub find_last_not_of-append :
    (text : Bytes) (c : ℕ) (set blanks : Bytes)
    → elem c set ≡ false
    → All (λ b. elem b set ≡ true) blanks
    → find_last_not_of (text ++ c ∷ blanks) set ≡ some (length text)
unfolding find_last_not_of
find_last_not_of-append [] c set blanks h all =
    ground (arith, find_last_not_of_blanks set blanks all)
find_last_not_of-append (x ∷ text) c set blanks h all =
    ground (arith, find_last_not_of-append text c set blanks h all)

-- No byte that was to go is left, and a text without it stays.
pub elem-erase_byte : (b : ℕ) (text : Bytes) → elem b (erase_byte b text) ≡ false
unfolding elem erase_byte
elem-erase_byte b [] = refl
elem-erase_byte b (c ∷ text) = ground (arith, elem-erase_byte b text)
