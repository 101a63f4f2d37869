-- ===== src/Commands/Handler/Partition.antt =====
-- The split of a command line into its parts.
use mathlib.Core.List.{append-nil, append_assoc}
use kuro_net.Prelude.{
  ℕ, ◌≡◌, ◌≢◌, refl, ap, ◌∙◌, true, false, List, [], ◌∷◌, ◌++◌, nat_eq, list_eq, if◌then◌else◌, All,
  All-append_one, Bool-cases, inl, inr,
}
use kuro_net.Text.{Bytes, is_empty}
use kuro_net.Tokens.Stoi.{is_space}
use kuro_net.Commands.Handler.{split_parts}

abbrev pub IsSolid : Bytes → Type 0
IsSolid word = All (λ c. is_space c ≡ false) word

abbrev pub IsBlank : Bytes → Type 0
IsBlank line = All (λ c. is_space c ≡ true) line

-- A part: no blank stands in it, and it is not empty.
abbrev pub IsPart : Bytes → Type 0
IsPart word = (word ≢ []) × IsSolid word

-- The parts with one space behind each.
pub join : List Bytes → Bytes
join [] = []
join (word ∷ words) = word ++ (b' ' ∷ join words)

is_empty_append : (part : Bytes) (c : ℕ) → is_empty (part ++ c ∷ []) ≡ false
is_empty_append [] c = refl
is_empty_append (x ∷ part) c = refl

is_empty-false : (part : Bytes) → part ≢ [] → is_empty part ≡ false
is_empty-false [] h = absurd (h refl)
is_empty-false (x ∷ part) h = refl

-- The bytes of a word are collected.
split_parts_word :
    (part word line : Bytes)
    → IsSolid word
    → split_parts part (word ++ line) ≡ split_parts (part ++ word) line
unfolding split_parts
split_parts_word part [] line solid = rw (append-nil part)
split_parts_word part (c ∷ word) line solid = rw (solid.0) (
    split_parts_word (part ++ c ∷ []) word line solid.1
    ∙ ap (λ t. split_parts t line) (append_assoc part (c ∷ []) word))

-- Words that are not empty and hold no blank, each followed by a blank, are read back from the line.
pub split_parts-join : (words : List Bytes) → All IsPart words → split_parts [] (join words) ≡ words
unfolding join split_parts
split_parts-join [] all = refl
split_parts-join (word ∷ words) all =
    split_parts_word [] word (b' ' ∷ join words) all.0.1
    ∙ rw (is_empty-false word all.0.0, split_parts-join words all.1)

-- The part that has been read so far, before the parts of the rest.
IsPart-ends :
    (part : Bytes) (rest : List Bytes)
    → IsSolid part
    → All IsPart rest
    → All IsPart (if is_empty part then rest else part ∷ rest)
IsPart-ends [] rest solid all = all
IsPart-ends (x ∷ part) rest solid all = (((λ e. cc), solid), all)

split_parts_from : (part line : Bytes) → IsSolid part → All IsPart (split_parts part line)
unfolding split_parts
split_parts_from part [] solid = IsPart-ends part [] solid tt
split_parts_from part (c ∷ line) solid = elim (Bool-cases (is_space c)) [
  | inl space ↦
      rw space (IsPart-ends part (split_parts [] line) solid (split_parts_from [] line tt))
  | inr inside ↦ rw inside (
      split_parts_from (part ++ c ∷ []) line
        (All-append_one (λ b. is_space b ≡ false) c part inside solid))
]

-- Whatever the line is, no part is empty and no part holds a blank.
pub split_parts-IsPart : (line : Bytes) → All IsPart (split_parts [] line)
split_parts-IsPart line = split_parts_from [] line tt

-- A line of blanks has no part.
pub split_parts_blank : (line : Bytes) → IsBlank line → split_parts [] line ≡ []
unfolding split_parts
split_parts_blank [] blank = refl
split_parts_blank (c ∷ line) blank = rw (blank.0) (split_parts_blank line blank.1)
