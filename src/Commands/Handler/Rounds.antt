-- ===== src/Commands/Handler/Rounds.antt =====
-- A round of the loop on a line of blanks.
use kuro_net.Prelude.{
  ℕ, ◌≡◌, ◌≢◌, refl, false, some, [], ◌∷◌, nat_eq, list_eq, ◌==◌, arith, list_beq,
}
use kuro_net.Text.{Bytes, codes, is_empty}
use kuro_net.Platform.{Platform}
use kuro_net.Exec.{undefined}
use kuro_net.World.{World}
use kuro_net.Tokens.Stoi.{is_space}
use kuro_net.Commands.Handler.{round, command_partition, executor_valid}
use kuro_net.Commands.Handler.Partition.{IsBlank, split_parts_blank}

-- A line of blanks is not a word that begins with a letter.
blank_ne :
    (line : Bytes) (c : ℕ) (word : Bytes)
    → IsBlank line
    → is_space c ≡ false
    → (line == c ∷ word) ≡ false
unfolding list_beq
blank_ne [] c word blank letter = refl
blank_ne (b ∷ line) c word blank letter = ground arith

blank_is_empty : (line : Bytes) → line ≢ [] → is_empty line ≡ false
blank_is_empty [] h = absurd (h refl)
blank_is_empty (b ∷ line) h = refl

module _ {p : Platform} where
  -- A line of blanks, not empty, behind the key `!` has no first part, and the round reads one all the same,
  -- which is undefined behaviour.
  pub round_blank :
      (line : Bytes) (w : World p)
      → line ≢ []
      → IsBlank line
      → (round (some b'!') line w).0 ≡ undefined
  unfolding round executor_valid command_partition
  round_blank line w full blank = rw (
    round,
    blank_ne line b'e' (codes "xit") blank refl,
    blank_ne line b'h' (codes "elp") blank refl,
    blank_is_empty line full,
    split_parts_blank line blank,
  )
