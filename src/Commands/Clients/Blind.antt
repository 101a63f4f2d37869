-- ===== src/Commands/Clients/Blind.antt =====
-- The command `client` does not depend on the order of the maps, but for the two operations that walk
-- over a map.
use kuro_net.Prelude.{refl, Option, none, some, List, nat_eq, list_eq, ltb, length}
use kuro_net.Prelude.Map.{lookup}
use kuro_net.Text.{Bytes}
use kuro_net.Platform.{Platform}
use kuro_net.Exec.{ok, gets, pure}
use kuro_net.Logger.{error, command}
use kuro_net.World.Reorder.{Blind, Blind-pure, Blind-gets, Blind-bind, Blind-then, Blind-if}
use kuro_net.Session.{approve_client}
use kuro_net.Session.Blind.{Blind-log, Blind-approve_client}
use kuro_net.Commands.Token.{part}
use kuro_net.Commands.Clients.{
  Operation, help, approves, waits, lists, execute, run_operation, get_help, approve, operations,
}

-- The operation walks over a map.
abbrev IsWalk : Option Operation → Type 0
IsWalk none = ⊥
IsWalk (some help) = ⊥
IsWalk (some approves) = ⊥
IsWalk (some waits) = Unit
IsWalk (some lists) = Unit

-- The command is `client waits` or `client list`.
abbrev pub IsListing : List Bytes → Type 0
IsListing cmd = IsWalk (lookup (part cmd 1) operations)

module _ {p : Platform} where
  Blind-approve : Blind {p = p} approve
  unfolding approve
  Blind-approve = Blind-bind (gets λ w. w.clients_command) _ (Blind-gets _ λ w r. refl) λ parts.
      Blind-if (ltb (length parts) 4) _ _ (Blind-log command _) (
        Blind-bind (approve_client (part parts 2) (part parts 3)) _
          (Blind-approve_client (part parts 2) (part parts 3))
          λ approved. Blind-if approved _ (pure tt) (Blind-log command _) (Blind-pure tt))

  Blind-run_operation : (o : Option Operation) → ¬ IsWalk o → Blind {p = p} (run_operation o)
  unfolding run_operation get_help
  Blind-run_operation none still = Blind-pure tt
  Blind-run_operation (some help) still = Blind-log command _
  Blind-run_operation (some approves) still = Blind-approve
  Blind-run_operation (some waits) still = absurd (still tt)
  Blind-run_operation (some lists) still = absurd (still tt)

  pub Blind-execute : (cmd : List Bytes) → ¬ IsListing cmd → Blind {p = p} (execute cmd)
  unfolding execute
  Blind-execute cmd still = Blind-if (ltb (length cmd) 2) _ _ (Blind-log error _) (
      Blind-then (λ w. (ok tt, record w { clients_command = cmd }))
        (run_operation (lookup (part cmd 1) operations)) (record { at = λ w r. (r, refl) })
        (Blind-run_operation (lookup (part cmd 1) operations) still))
