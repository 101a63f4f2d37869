-- ===== src/Logger.antt =====
-- include/core/logger.hpp and src/core/logger.cpp: the levels, the lines, and the lines that wait
-- while the log is stopped. The text of the clock at its n-th reading is an argument,
-- for which `Clock` has the code.
pub mod Clock
pub mod Order
pub mod History
pub mod Held
pub mod Filtering
use kuro_net.Prelude.{
  ℕ, ◌+◌, Bool, true, false, Option, none, some, List, [], ◌∷◌, ◌++◌, ltb, if◌then◌else◌,
}
use kuro_net.Text.{Bytes, codes, find}

pub data Level : Type 0 where
  debug info warning error command : Level

-- The order of the enumerators.
abbrev pub rank : Level → ℕ
rank debug = 0
rank info = 1
rank warning = 2
rank error = 3
rank command = 4

pub record Logger : Type 0 where
  pub current_level : Level
  pub stop_flag : Bool
  -- The last line is the newest, here and in `out`.
  pub log_when_stopped : List Bytes
  -- What `std::cout` was sent, line by line.
  pub out : List Bytes
  -- How often the clock has been read.
  pub readings : ℕ

abbrev pub initial : Logger
initial = record {
  current_level = info;
  stop_flag = false;
  log_when_stopped = [];
  out = [];
  readings = 0;
}

abbrev colour_red : Bytes
colour_red = 27 ∷ codes "[31m"

abbrev colour_green : Bytes
colour_green = 27 ∷ codes "[32m"

abbrev colour_yellow : Bytes
colour_yellow = 27 ∷ codes "[33m"

abbrev colour_blue : Bytes
colour_blue = 27 ∷ codes "[34m"

abbrev colour_reset : Bytes
colour_reset = 27 ∷ codes "[0m"

level_str : Level → Bytes
level_str debug = codes "DEBUG"
level_str info = codes "INFO"
level_str warning = codes "WARN"
level_str error = codes "ERROR"
level_str command = codes "COMMAND"

colour : Level → Bytes
colour debug = colour_blue
colour info = colour_green
colour warning = colour_yellow
colour error = colour_red
colour command = colour_blue

pub log_output : Bytes → Level → Bytes → Bytes
unfolding level_str colour
log_output time level message =
    codes "["
    ++ (time
        ++ (codes "][KuroNet]["
            ++ (colour level
                ++ (level_str level
                    ++ (colour_reset
                        ++ (codes "]: " ++ (colour level ++ (message ++ colour_reset))))))))

abbrev pub history_mark : Bytes
history_mark = codes "\t --history"

abbrev pub command_word : Bytes
command_word = codes "COMMAND"

pub with_mark : Bytes → Bytes
with_mark line = elim (find line command_word) [ none ↦ line ++ history_mark | some _ ↦ line ]

unfoldable pub set_level : Level → Logger → Logger
set_level level lg = record lg { current_level = level }

-- The part of `log` behind the test of the level.
pub write_line : Bytes → Logger → Logger
write_line line lg =
    if lg.stop_flag
    then record lg { log_when_stopped = lg.log_when_stopped ++ with_mark line ∷ [] }
    else record lg { out = lg.out ++ line ∷ [] }

unfoldable pub log : (ℕ → Bytes) → Level → Bytes → Logger → Logger
unfolding write_line
log current_time level message lg =
    if ltb (rank level) (rank lg.current_level)
    then lg
    else write_line (log_output (current_time lg.readings) level message)
        (record lg { readings = lg.readings + 1 })

unfoldable pub stop : Logger → Logger
stop lg = record lg { stop_flag = true }

-- `_continue`.
unfoldable pub resume : Logger → Logger
resume lg = record lg {
  stop_flag = false;
  log_when_stopped = [];
  out = lg.out ++ lg.log_when_stopped;
}

-- A call of the class, and a run of calls.
pub data Call : Type 0 where
  sets : Level → Call
  logs : Level → Bytes → Call
  stops resumes : Call

unfoldable pub step : (ℕ → Bytes) → Call → Logger → Logger
unfolding set_level log stop resume
step t (sets level) lg = set_level level lg
step t (logs level message) lg = log t level message lg
step t stops lg = stop lg
step t resumes lg = resume lg

unfoldable pub run : (ℕ → Bytes) → List Call → Logger → Logger
unfolding step
run t [] lg = lg
run t (c ∷ cs) lg = run t cs (step t c lg)
