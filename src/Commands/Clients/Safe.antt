-- ===== src/Commands/Clients/Safe.antt =====
-- Where the command `client` has undefined behaviour.
use kuro_net.Prelude.{
  ℕ, ◌≡◌, ◌≤◌, refl, false, inl, inr, Bool-cases, arith, not, Option, none, some, List, [], ◌∷◌,
  ◌++◌, nat_eq, list_eq, ltb, if◌then◌else◌, length,
}
use kuro_net.Prelude.Map.{lookup}
use kuro_net.Text.{Bytes, codes}
use kuro_net.Platform.{Platform}
use kuro_net.Exec.{undefined, gets, pure}
use kuro_net.Exec.Safe.{
  Safe, Safe-pure, Safe-if, Safe-then, Safe-bind, Safe-gets, after-safe, after-undefined,
}
use kuro_net.Logger.{warning, command}
use kuro_net.World.{World, Client, log}
use kuro_net.Session.{approve_client, access_clients, access_wait_clients}
use kuro_net.Session.Approval.{Extracts, approve_client_undefined_iff}
use kuro_net.Session.Safe.{Safe-log, Safe-access_wait_clients}
use kuro_net.Commands.Token.{part}
use kuro_net.Commands.Clients.{
  Operation, help, approves, waits, lists, execute, run_operation, get_help, approve, list_waiting,
  user_line, user_lines, show_users, get_wait_clients, get_clients, operations,
}

-- The parts are those of a `client approve` that comes to read the iterator of an extracted element.
pub record ReadsExtracted {p : Platform} (cmd : List Bytes) (w : World p) : Type 0 where
  pub long : 4 ≤ length cmd
  pub approving : lookup (part cmd 1) operations ≡ some approves
  pub extracts : Extracts {p = p} (part cmd 2) (part cmd 3) w

long_of : (n k : ℕ) → ltb n k ≡ false → k ≤ n
long_of n k e = ground arith

module _ {p : Platform} {X : Type 0} where
  Safe-list_waiting :
      (entries : List (Bytes × Client)) → Safe {S = World p} X (list_waiting entries)
  unfolding list_waiting
  Safe-list_waiting [] = Safe-pure []
  Safe-list_waiting ((id, client) ∷ entries) =
      Safe-bind (gets λ w. p.is_open (w.sockets client.socket)) _ (Safe-gets _) λ opened.
        Safe-then (if not opened then log warning (id ++ codes ", leave") else pure tt) _
          (Safe-if (not opened) _ (pure tt) (λ left. Safe-log warning _) (λ there. Safe-pure tt))
          (Safe-bind (list_waiting entries) _ (Safe-list_waiting entries)
            λ users. Safe-pure (user_line (id, client) ∷ users))

  Safe-show_users :
      (when_empty : Bytes) (users : List Bytes) → Safe {S = World p} X (show_users when_empty users)
  unfolding show_users
  Safe-show_users when_empty [] = Safe-log command when_empty
  Safe-show_users when_empty (user ∷ users) = Safe-log command _

  Safe-get_wait_clients : Safe {S = World p} X get_wait_clients
  unfolding get_wait_clients
  Safe-get_wait_clients = Safe-bind (gets λ w. w.clients_command) _ (Safe-gets _) λ parts.
      Safe-if (ltb (length parts) 2) _ _ (λ short. Safe-log command _)
        (λ long.
          Safe-bind (access_wait_clients list_waiting) _
            (Safe-access_wait_clients list_waiting Safe-list_waiting) (Safe-show_users _))

  Safe-get_clients : Safe {S = World p} X get_clients
  unfolding get_clients
  Safe-get_clients = Safe-bind (gets λ w. w.clients_command) _ (Safe-gets _) λ parts.
      Safe-if (ltb (length parts) 2) _ _ (λ short. Safe-log command _)
        (λ long.
          Safe-bind (access_clients λ entries. pure (user_lines entries)) _
            (record { at = λ w e. cc }) (Safe-show_users (codes "No approved clients.")))

module _ {p : Platform} where
  -- Extracting depends on the manager alone.
  same-Extracts :
      (id token : Bytes) (v w : World p)
      → v.manager ≡ w.manager
      → Extracts id token v
      → Extracts id token w
  same-Extracts id token v w same h = record {
    unreadable = h.unreadable;
    active = rw (← same) h.active;
    client = h.client;
    waited = rw (← same) h.waited;
  }

  pub same-ReadsExtracted :
      (cmd : List Bytes) (v w : World p)
      → v.manager ≡ w.manager
      → ReadsExtracted cmd v
      → ReadsExtracted cmd w
  same-ReadsExtracted cmd v w same h = record {
    long = h.long;
    approving = h.approving;
    extracts = same-Extracts (part cmd 2) (part cmd 3) v w same h.extracts;
  }

  approve-safe :
      (w : World p)
      → (approve w).0 ≡ undefined
      → (4 ≤ length w.clients_command)
        × Extracts (part w.clients_command 2) (part w.clients_command 3) w
  unfolding approve
  approve-safe w e =
      let parts = w.clients_command in
      let id = part parts 2 in
      let token = part parts 3 in
      elim (Bool-cases (ltb (length parts) 4)) [
        | inl short ↦ cc (rw (approve, short) at e)
        | inr long ↦ (
          long_of (length parts) 4 long,
          after-safe ((approve_client id token w).0) ((approve_client id token w).1)
              (λ approved.
                if approved
                then log command (codes "Client: " ++ (id ++ codes ", approved succesfuly"))
                else pure tt)
              ((approve_client_undefined_iff id token w).0)
              (λ approved.
                Safe-if approved _ (pure tt) (λ yes. Safe-log command _) (λ no. Safe-pure tt))
              (rw (approve, long) at e),
        )
      ]

  run_operation-safe :
      (o : Option Operation) (w : World p)
      → lookup (part w.clients_command 1) operations ≡ o
      → (run_operation o w).0 ≡ undefined
      → ReadsExtracted w.clients_command w
  unfolding run_operation get_help
  run_operation-safe none w known e = cc
  run_operation-safe (some help) w known e = cc
  run_operation-safe (some approves) w known e = record {
    long = (approve-safe w e).0;
    approving = known;
    extracts = (approve-safe w e).1;
  }
  run_operation-safe (some waits) w known e = Safe-get_wait_clients.at w e
  run_operation-safe (some lists) w known e = Safe-get_clients.at w e

  pub execute-safe :
      (cmd : List Bytes) (w : World p) → (execute cmd w).0 ≡ undefined → ReadsExtracted cmd w
  unfolding execute
  execute-safe cmd w e = elim (Bool-cases (ltb (length cmd) 2)) [
    | inl short ↦ cc (rw (execute, short) at e)
    | inr long ↦
        let set = record w { clients_command = cmd } in
        same-ReadsExtracted cmd set w refl
          (run_operation-safe (lookup (part cmd 1) operations) set refl (rw (execute, long) at e))
  ]

  pub extracted-execute :
      (cmd : List Bytes) (w : World p) → ReadsExtracted cmd w → (execute cmd w).0 ≡ undefined
  unfolding execute approve run_operation
  extracted-execute cmd w h =
      let two : ltb (length cmd) 2 ≡ false = ground (arith, h.long) in
      let four : ltb (length cmd) 4 ≡ false = ground (arith, h.long) in
      let set : World p = record w { clients_command = cmd } in
      let there : (approve_client (part cmd 2) (part cmd 3) set).0 ≡ undefined =
        (approve_client_undefined_iff (part cmd 2) (part cmd 3) set).1
          (same-Extracts (part cmd 2) (part cmd 3) w set refl h.extracts) in
      rw (execute, two, h.approving, approve, four)
        (after-undefined (approve_client (part cmd 2) (part cmd 3) set) _ there)
