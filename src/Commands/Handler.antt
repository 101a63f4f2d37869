-- ===== src/Commands/Handler.antt =====
-- include/core/CommandHandler.hpp and src/core/CommandHandler.cpp: the split of a line into parts,
-- the choice of the executor, the terminal's attributes, and the loop. What the operator types is an
-- argument of each round.
pub mod Partition
pub mod Rounds
pub mod Exit
pub mod Keeps
pub mod Safe
pub mod Silence
pub mod Attributes
pub mod Leaving
use kuro_net.Prelude.{
  ℕ, ◌+◌, ◌/◌, ◌%◌, Bool, true, false, Option, none, some, List, [], ◌∷◌, ◌++◌, nat_eq, list_eq,
  ltb, ◌==◌, ◌||◌, if◌then◌else◌, String,
}
use Prim.Native.Char.{code}
use kuro_net.Prelude.Map.{lookup, emplace}
use kuro_net.Text.{Bytes, codes, is_empty}
use kuro_net.Logger.{error, command}
use kuro_net.Logger
use kuro_net.Platform.{Platform, Termios}
use kuro_net.Exec.{Exec, Outcome, ok, undefined, ◌>>=◌, ◌>>◌, pure, gets}
use kuro_net.Tokens.Stoi.{is_space}
use kuro_net.World.{World, Terminal, log}
use kuro_net.Commands.Token.{names}
use kuro_net.Commands.Token
use kuro_net.Commands.Clients

-- The bytes of a text in UTF-8 whose characters are below U+0800.
abbrev pub utf8 : String → Bytes
utf8 String.[] = []
utf8 (String.◌∷◌ c s) =
    if ltb (code c) 128 then code c ∷ utf8 s else (192 + code c / 64) ∷ (128 + code c % 64) ∷ utf8 s

-- The objects behind the base class.
pub data Executor : Type 0 where
  token_executor client_executor : Executor

-- `exec_init`, on the empty map.
abbrev pub executors : List (Bytes × Executor)
executors = emplace (codes "client") client_executor (emplace (codes "token") token_executor [])

-- `while (iss >> part)`: the part that is being read, and the rest of the line.
unfoldable pub split_parts : Bytes → Bytes → List Bytes
split_parts part [] = if is_empty part then [] else part ∷ []
split_parts part (c ∷ line) =
    let inside = split_parts (part ++ c ∷ []) line in
    let outside = split_parts [] line in
    if is_space c then (if is_empty part then outside else part ∷ outside) else inside

-- `newt.c_lflag &= ~(ICANON | ECHO)`, and the two control characters.
unfoldable pub raw_attributes : Platform → Termios → Termios
raw_attributes p a = record a {
  c_lflag = λ i. if i == p.icanon || i == p.echo then false else a.c_lflag i;
  c_cc = λ i. if i == p.vmin || i == p.vtime then 0 else a.c_cc i;
}

-- `newt.c_lflag |= (ICANON | ECHO)`.
unfoldable pub line_attributes : Platform → Termios → Termios
line_attributes p a = record a {
  c_lflag = λ i. if i == p.icanon || i == p.echo then true else a.c_lflag i;
}

-- What a round ends in: another round, or `exit(0)`.
pub data Next : Type 0 where
  again exits : Next

module _ {p : Platform} where
  unfoldable pub get_help : Exec (World p) (Unit {0})
  get_help = log command (
      codes "\nType \"help\" for see that message\nexit for close KuroNet\n"
      ++ (codes "Supported operations\n" ++ names executors))

  unfoldable pub command_partition : Bytes → Exec (World p) (Unit {0})
  command_partition line w = (ok tt, record w { command_parts = split_parts [] line })

  run_executor : Option Executor → Bytes → List Bytes → Exec (World p) Bool
  run_executor none name parts = do log error (utf8 "Неизвестный операнд: " ++ name); pure false
  run_executor (some token_executor) name parts = Token.execute parts >> pure true
  run_executor (some client_executor) name parts = Clients.execute parts >> pure true

  -- `command_parts[0]` of an empty vector is undefined.
  find_executor : List Bytes → Exec (World p) Bool
  unfolding run_executor
  find_executor [] w = (undefined, w)
  find_executor (name ∷ parts) w = run_executor (lookup name executors) name (name ∷ parts) w

  unfoldable pub executor_valid : Exec (World p) Bool
  unfolding find_executor
  executor_valid = do parts ← gets λ w. w.command_parts; find_executor parts

  abbrev on_log : (Logger.Logger → Logger.Logger) → Exec (World p) (Unit {0})
  on_log f w = (ok tt, record w { logger = f w.logger })

  -- A line that is no command of the handler itself.
  pub run_line : Bytes → Exec (World p) Next
  run_line line = do command_partition line; _ ← executor_valid; pure again

  -- The part of a round behind the key `!`, with the line that is typed then.
  pub on_line : Bytes → Exec (World p) Next
  unfolding run_line
  on_line line =
      if line == codes "exit"
      then pure exits
      else if line == codes "help"
      then (get_help >> pure again)
      else if is_empty line
      then (log error (codes "Command empty, type help for get help") >> pure again)
      else run_line line

  -- What the static variables and the terminal are behind `set_nonblocking`. Where the attributes can
  -- not be read, those of the last call are set again.
  pub attended : Bool → Terminal p → Terminal p
  attended enable t =
      let oldt : Termios = elim (p.tcgetattr t.tty) [
        | none ↦ t.oldt
        | some attributes ↦ attributes
      ] in
      let newt : Termios = if enable then raw_attributes p oldt else line_attributes p oldt in
      record { tty = p.tcsetattr newt t.tty; oldt = oldt; newt = newt }

  pub set_nonblocking : Bool → Exec (World p) (Unit {0})
  unfolding attended
  set_nonblocking enable w = (ok tt, record w { terminal = attended enable w.terminal })

  -- The process as it is while the line is typed.
  abbrev pub at_prompt : World p → World p
  at_prompt w = record w {
    logger = Logger.stop (Logger.resume w.logger);
    terminal = attended false (attended true w.terminal);
  }

  -- One round of `run`: the byte that is read without waiting, if there is one, and the line. It is one
  -- step, in which no other thread runs.
  unfoldable pub round : Option ℕ → Bytes → Exec (World p) Next
  unfolding on_line set_nonblocking
  round key line = do
    set_nonblocking true
    on_log Logger.resume
    elim key [
      | none ↦ pure again
      | some c ↦
          if c == b'!'
          then (on_log Logger.stop >> (set_nonblocking false >> on_line line))
          else pure again
    ]

  -- What follows a round.
  abbrev pub go_on : Exec (World p) Next → Next → Exec (World p) Next
  go_on rest again = rest
  go_on rest exits = pure exits

  -- `run`, on what the terminal has for each round. `again` is a loop that still runs.
  unfoldable pub run : List (Option ℕ × Bytes) → Exec (World p) Next
  unfolding round
  run [] = pure again
  run ((key, line) ∷ readings) = round key line >>= go_on (run readings)
