-- ===== src/Tests/CommandTests.antt =====
-- Instances of the theorems on the commands and on the tokens.
use kuro_net.Prelude.{
  ◌+◌, length, true, false, ◌≢◌, ℕ, ◌≡◌, ◌↔◌, refl, Option, none, some, List, [], ◌∷◌, nat_eq,
  list_eq, list_beq, All,
}
use kuro_net.Text.{Bytes, codes}
use kuro_net.Exec.{ok, throw, invalid_argument}
use kuro_net.Logger
use kuro_net.Logger.{Level}
use kuro_net.Logger.Clock.{current_time}
use kuro_net.Logger.Held.{held_lines}
use kuro_net.World.{World}
use kuro_net.Tokens.{session_token}
use kuro_net.Tokens.Stoi.{stoi}
use kuro_net.Commands.Token
use kuro_net.Commands.Token.Outcomes.{Issues, flag, commanded, execute-Issues, execute_bad_time}
use kuro_net.Commands.Handler.{at_prompt, split_parts, round, exits, run, get_help}
use kuro_net.Commands.Handler.Partition.{IsPart, join, split_parts-join, split_parts-IsPart}
use kuro_net.Commands.Handler.Exit.{Ends, run_iff}
use kuro_net.Commands.Handler.Attributes.{Leaves}
use kuro_net.Commands.Handler.Leaving.{run-Leaves}
use kuro_net.Commands.Handler.Silence.{round_prints}
use kuro_net.Tests.Sample.{attributes, sample, world}

abbrev words : List Bytes
words = codes "token" ∷ codes "create" ∷ codes "-perm" ∷ []

words-IsPart : All IsPart words
unfolding split_parts
words-IsPart = split_parts-IsPart (codes "token create -perm")

split_parts-join_example : split_parts [] (join words) ≡ words
split_parts-join_example = split_parts-join words words-IsPart

split_parts_run : split_parts [] (codes " client  list ") ≡ codes "client" ∷ codes "list" ∷ []
unfolding split_parts
split_parts_run = refl

abbrev readings : List (Option ℕ × Bytes)
readings = (none, []) ∷ (some b'!', codes "help") ∷ (some b'!', codes "exit") ∷ (none, []) ∷ []

abbrev behind_help : World sample
behind_help = (round (some b'!') (codes "help") (round none [] world).1).1

abbrev at_exit : World sample
at_exit = at_prompt behind_help

run_iff_example : (run readings world ≡ (ok exits, at_exit)) ↔ Ends readings world at_exit
run_iff_example = run_iff readings world at_exit

run_exits : run readings world ≡ (ok exits, at_exit)
unfolding run round get_help list_beq
run_exits =
    (run_iff readings world at_exit).1
      ((none, []) ∷ (some b'!', codes "help") ∷ [], (none, []) ∷ [], behind_help, refl, refl, refl)

execute-Issues_example :
    let cmd = codes "token" ∷ codes "create" ∷ flag session_token ∷ [] in
    Issues session_token (commanded cmd world) (Token.execute cmd world)
execute-Issues_example = execute-Issues session_token (codes "token") [] world (λ e. cc)

soon_unreadable : stoi (codes "soon") ≡ throw (invalid_argument (codes "stoi"))
unfolding stoi
soon_unreadable = refl

execute_bad_time_example :
    let cmd = codes "token" ∷ codes "create" ∷ codes "-temp" ∷ codes "-day" ∷ codes "soon" ∷ [] in
    Token.execute cmd world ≡ (throw (invalid_argument (codes "stoi")), commanded cmd world)
execute_bad_time_example =
    execute_bad_time (codes "token") (codes "-day") (codes "soon") [] world
      (invalid_argument (codes "stoi")) soon_unreadable

-- A stopped log with a line that is held back.
abbrev waiting_line : World sample
waiting_line = record world {
  logger = record Logger.initial { stop_flag = true; log_when_stopped = codes "held" ∷ [] };
}

round_prints_example :
    let lg = (round (some b'!') (codes "client list") waiting_line).1.logger in
    (lg.out ≡ codes "held" ∷ [])
    × (◌≡◌ {A = Option ℕ} (some b'!') (some b'!')
        → (lg.stop_flag ≡ true)
          × (entries : List (Level × Bytes)) × (lg.readings ≡ 0 + length entries)
          × (lg.log_when_stopped ≡ held_lines (current_time sample.clock) 0 entries))
    × (◌≢◌ {A = Option ℕ} (some b'!') (some b'!')
        → (lg.stop_flag ≡ false) × (lg.log_when_stopped ≡ []))
round_prints_example = round_prints (some b'!') (codes "client list") waiting_line

run-Leaves_example : Leaves {p = sample} attributes at_exit.terminal
run-Leaves_example = run-Leaves (λ a tty. refl) readings world at_exit attributes refl run_exits

-- VMIN was 1 before the loop.
vmin_before : attributes.c_cc sample.vmin ≡ 1
vmin_before = refl
