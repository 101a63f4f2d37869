-- ===== src/Logger/History.antt =====
-- The mark of the lines that were held back.
use mathlib.Core.List.{append_assoc}
use kuro_net.Prelude.{ℕ, ◌+◌, ◌≤◌, ◌⊎◌, ◌≡◌, true, [], ◌∷◌, ◌++◌, arith, Option-cases, inl, inr}
use kuro_net.Text.{Bytes, codes, find}
use kuro_net.Text.Find.{rfind-append_middle, rfind-eq-none}
use kuro_net.Logger.{
  Level, command, rank, Logger, log_output, with_mark, log, command_word, colour_reset, colour_blue,
  colour, level_str,
}

-- The word COMMAND stands somewhere in the text.
abbrev pub HoldsWord : Bytes → Type 0
HoldsWord text = (pre : Bytes) × (post : Bytes) × (text ≡ pre ++ (command_word ++ post))

with_mark-HoldsWord : (line : Bytes) → HoldsWord line → with_mark line ≡ line
unfolding with_mark
with_mark-HoldsWord line (pre, post, e) = elim (Option-cases (find line command_word)) [
  | inl f ↦ absurd (rfind-append_middle pre command_word post ((rfind-eq-none _ _).1 (rw e at f)))
  | inr (i, f) ↦ rw (f, with_mark)
]

-- A line of level `command` holds the word, and so does a line whose message holds it.
log_output-HoldsWord :
    (time : Bytes) (level : Level) (message : Bytes)
    → (level ≡ command) ⊎ HoldsWord message
    → HoldsWord (log_output time level message)
unfolding log_output
log_output-HoldsWord time level message (inl e) = (
  codes "[" ++ (time ++ (codes "][KuroNet][" ++ colour_blue)),
  colour_reset ++ (codes "]: " ++ (colour_blue ++ (message ++ colour_reset))),
  rw e (simp append_assoc),
)
log_output-HoldsWord time level message (inr (pre, post, e)) = (
  codes "["
      ++ (time
          ++ (codes "][KuroNet]["
              ++ (colour level
                  ++ (level_str level
                      ++ (colour_reset ++ (codes "]: " ++ (colour level ++ pre))))))),
  post ++ colour_reset,
  rw e (simp append_assoc),
)

-- While the log is stopped, a line of level `command`, or one whose message holds the word
-- COMMAND, is kept back without the history mark, and nothing is printed, if the level in force lets
-- the line through.
pub log_unmarked :
    (t : ℕ → Bytes) (level : Level) (message : Bytes) (lg : Logger)
    → lg.stop_flag ≡ true
    → rank lg.current_level ≤ rank level
    → (level ≡ command) ⊎ HoldsWord message
    → log t level message lg ≡ record lg {
      readings = lg.readings + 1;
      log_when_stopped = lg.log_when_stopped ++ log_output (t lg.readings) level message ∷ [];
    }
unfolding log
log_unmarked t level message lg s h word = ground (
  arith,
  with_mark-HoldsWord (log_output (t lg.readings) level message)
      (log_output-HoldsWord (t lg.readings) level message word),
)
