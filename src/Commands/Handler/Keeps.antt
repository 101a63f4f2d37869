-- ===== src/Commands/Handler/Keeps.antt =====
-- The command handler keeps what stands the changes of the session.
use kuro_net.Prelude.{refl, false, true, Option, none, some, List, [], ◌∷◌, nat_eq, list_eq, ◌==◌}
use kuro_net.Prelude.Map.{lookup}
use kuro_net.Text.{Bytes, codes, is_empty}
use kuro_net.Logger.{error, command}
use kuro_net.Platform.{Platform}
use kuro_net.Exec.{pure}
use kuro_net.World.{World, log}
use kuro_net.Session.Keeps.{
  Keeps, Keeps-pure, Keeps-log, Keeps-bind, Keeps-then, Keeps-if, Keeps-reads, Stands,
}
use kuro_net.Session.Closed.{Closed, Anyone}
use kuro_net.Commands.Token
use kuro_net.Commands.Token.Keeps as TokenKeeps
use kuro_net.Commands.Clients
use kuro_net.Commands.Clients.Keeps as ClientsKeeps
use kuro_net.Commands.Handler.{
  Executor, token_executor, client_executor, executors, again, exits, run_line, on_line,
  command_partition, executor_valid, find_executor, run_executor, get_help,
}

module _ {p : Platform} {S : Type 0} {look : World p → S} {P : S → Type 0} ⦃stands : Stands look P⦄
    (closed : Closed Anyone look P) where
  Keeps-run_executor :
      (o : Option Executor) (name : Bytes) (parts : List Bytes)
      → Keeps {p = p} look P (run_executor o name parts)
  unfolding run_executor
  Keeps-run_executor none name parts =
      Keeps-then (log error _) _ (Keeps-log error _) (Keeps-pure false)
  Keeps-run_executor (some token_executor) name parts =
      Keeps-then (Token.execute parts) _ (TokenKeeps.Keeps-execute closed parts) (Keeps-pure true)
  Keeps-run_executor (some client_executor) name parts =
      Keeps-then (Clients.execute parts) _ (ClientsKeeps.Keeps-execute closed parts λ e. tt)
        (Keeps-pure true)

  Keeps-find_executor : (parts : List Bytes) → Keeps {p = p} look P (find_executor parts)
  unfolding find_executor
  Keeps-find_executor [] = record { at = λ w h. stands.rests w _ refl refl refl h }
  Keeps-find_executor (name ∷ parts) = record {
    at = λ w h. (Keeps-run_executor (lookup name executors) name (name ∷ parts)).at w h;
  }

  Keeps-executor_valid : Keeps {p = p} look P executor_valid
  unfolding executor_valid
  Keeps-executor_valid = Keeps-reads (λ w. w.command_parts) find_executor Keeps-find_executor

  Keeps-command_partition : (line : Bytes) → Keeps {p = p} look P (command_partition line)
  unfolding command_partition
  Keeps-command_partition line = record { at = λ w h. stands.rests w _ refl refl refl h }

  pub Keeps-on_line : (line : Bytes) → Keeps {p = p} look P (on_line line)
  unfolding on_line run_line get_help
  Keeps-on_line line = Keeps-if (line == codes "exit") (pure exits) _ (Keeps-pure exits) (
      Keeps-if (line == codes "help") _ _
        (Keeps-then get_help _ (Keeps-log command _) (Keeps-pure again))
        (Keeps-if (is_empty line) _ _
          (Keeps-then (log error _) _ (Keeps-log error _) (Keeps-pure again))
          (Keeps-then (command_partition line) _ (Keeps-command_partition line)
            (Keeps-bind executor_valid _ Keeps-executor_valid λ valid. Keeps-pure again))))
