-- ===== src/Dispatcher/Fields.antt =====
-- The value of a field of a request.
use native.Mathlib.Numerals.{add-one}
use mathlib.Core.List.{append_assoc}
use kuro_net.Prelude.{
  ℕ, suc, ◌+◌, ◌-◌, ◌≡◌, refl, ap, ◌∙◌, ◌⊎◌, inl, inr, true, false, some, [], ◌∷◌, ◌++◌, nat_eq,
  length, take, All, arith, drop-append_two, take-append, take-length, length-append,
}
use kuro_net.Text.{Bytes, elem, find, find_from}
use kuro_net.Text.Find.{find_byte_after, find_byte_absent}
use kuro_net.Text.Trim.{find_last_not_of-append, find_last_not_of_blanks}
use kuro_net.Dispatcher.{blanks, trim_right, fill_up_field}

pub add-sub_left : (a b : ℕ) → a + b - a ≡ b
add-sub_left a b = omega arith

add_assoc_sub : (a b c : ℕ) → a + (b + c) - (a + b) ≡ c
add_assoc_sub a b c = omega arith

take-suc :
    (text : Bytes) (c : ℕ) (tail : Bytes)
    → take (suc (length text)) (text ++ c ∷ tail) ≡ text ++ c ∷ []
take-suc [] c tail = refl
take-suc (x ∷ text) c tail = ap (◌∷◌ x) (take-suc text c tail)

-- The bytes between the first place of the key and the end of the line.
fill_up_field_trims :
    (pre key value rest : Bytes)
    → find (pre ++ (key ++ (value ++ b'\n' ∷ rest))) key ≡ some (length pre)
    → elem b'\n' value ≡ false
    → fill_up_field (pre ++ (key ++ (value ++ b'\n' ∷ rest))) key ≡ trim_right value
unfolding fill_up_field find_from
fill_up_field_trims pre key value rest first one_line = rw (
  first,
  fill_up_field,
  drop-append_two pre key (value ++ b'\n' ∷ rest),
  find_byte_after b'\n' value rest one_line,
  add-sub_left (length pre + length key) (length value),
  take-append value,
)

-- The same for the last line, where no newline follows.
pub fill_up_field_last :
    (pre key value : Bytes)
    → find (pre ++ (key ++ value)) key ≡ some (length pre)
    → elem b'\n' value ≡ false
    → fill_up_field (pre ++ (key ++ value)) key ≡ trim_right value
unfolding fill_up_field find_from
fill_up_field_last pre key value first one_line = rw (
  first,
  fill_up_field,
  drop-append_two pre key value,
  find_byte_absent b'\n' value one_line,
  length-append pre (key ++ value),
  length-append key value,
  add_assoc_sub (length pre) (length key) (length value),
  take-length value,
)

-- Blanks at the right end go, and nothing else does.
pub trim_right-append :
    (text : Bytes) (c : ℕ) (tail : Bytes)
    → elem c blanks ≡ false
    → All (λ b. elem b blanks ≡ true) tail
    → trim_right (text ++ c ∷ tail) ≡ text ++ c ∷ []
unfolding trim_right
trim_right-append text c tail h all =
    rw (find_last_not_of-append text c blanks tail h all, trim_right)
      (rw (add-one (length text)) (take-suc text c tail))

-- A space, a carriage return or a newline.
abbrev pub IsBlank : ℕ → Type 0
IsBlank b = (b ≡ 32) ⊎ ((b ≡ 13) ⊎ (b ≡ 10))

IsBlank-elem : (b : ℕ) → IsBlank b → elem b blanks ≡ true
unfolding elem
IsBlank-elem b (inl space) = rw space refl
IsBlank-elem b (inr (inl ret)) = rw ret refl
IsBlank-elem b (inr (inr newline)) = rw newline refl

solid-elem : (b : ℕ) → ¬ IsBlank b → elem b blanks ≡ false
unfolding elem
solid-elem b solid = ground arith

All-blank : (tail : Bytes) → All IsBlank tail → All (λ b. elem b blanks ≡ true) tail
All-blank [] all = tt
All-blank (b ∷ tail) all = (IsBlank-elem b all.0, All-blank tail all.1)

-- A text with blanks at its right end, where it has nothing else or a byte before them that is none.
pub data Padded (text : Bytes) : Bytes → Type 0 where
  only_blanks : (tail : Bytes) → text ≡ [] → All IsBlank tail → Padded text tail
  solid_end :
      (body : Bytes) (c : ℕ) (tail : Bytes)
      → text ≡ body ++ c ∷ []
      → ¬ IsBlank c
      → All IsBlank tail
      → Padded text tail

trim_right-Padded : (text tail : Bytes) → Padded text tail → trim_right (text ++ tail) ≡ text
unfolding trim_right
trim_right-Padded text tail (only_blanks _ nothing all) =
    rw (nothing, trim_right, find_last_not_of_blanks blanks tail (All-blank tail all)) refl
trim_right-Padded text tail (solid_end body c _ ends solid all) =
    rw (ends, append_assoc body (c ∷ []) tail)
      (trim_right-append body c tail (solid-elem c solid) (All-blank tail all))

-- A field is read back: of what stands on a line behind the first place of the key, the text is the
-- value, and the spaces and carriage returns at the right end of the line are left out.
pub fill_up_field_line :
    (pre key text tail rest : Bytes)
    → find (pre ++ (key ++ ((text ++ tail) ++ b'\n' ∷ rest))) key ≡ some (length pre)
    → elem b'\n' (text ++ tail) ≡ false
    → Padded text tail
    → fill_up_field (pre ++ (key ++ ((text ++ tail) ++ b'\n' ∷ rest))) key ≡ text
fill_up_field_line pre key text tail rest first one_line padded =
    fill_up_field_trims pre key (text ++ tail) rest first one_line
    ∙ trim_right-Padded text tail padded
