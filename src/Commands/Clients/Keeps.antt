-- ===== src/Commands/Clients/Keeps.antt =====
-- The command `client` keeps what stands the changes of the session.
use kuro_net.Prelude.{
  ◌≡◌, refl, not, Option, none, some, List, [], ◌∷◌, ◌++◌, nat_eq, list_eq, ltb, if◌then◌else◌,
  length,
}
use kuro_net.Prelude.Map.{lookup}
use kuro_net.Text.{Bytes, codes}
use kuro_net.Platform.{Platform}
use kuro_net.Exec.{gets, pure}
use kuro_net.Logger.{error, warning, command}
use kuro_net.World.{World, Client, log}
use kuro_net.Session.{approve_client, access_clients, access_wait_clients}
use kuro_net.Session.Keeps.{
  Keeps, Keeps-pure, Keeps-log, Keeps-if, Keeps-then, Keeps-bind, Stands, Keeps-gets,
}
use kuro_net.Session.Closed.{Closed, Keeps-approve_client, Keeps-access_wait_clients}
use kuro_net.Commands.Token.{part}
use kuro_net.Commands.Clients.{
  Operation, help, approves, waits, lists, execute, run_operation, get_help, approve, list_waiting,
  user_line, user_lines, show_users, get_wait_clients, get_clients, operations,
}

-- Where the parts are those of `client approve`, they name an id and a token that are allowed.
abbrev pub IsPermitted : (Bytes → Bytes → Type 0) → List Bytes → Type 0
IsPermitted allows cmd =
    lookup (part cmd 1) operations ≡ some approves → allows (part cmd 2) (part cmd 3)

module _ {p : Platform} {S : Type 0} {look : World p → S} {P : S → Type 0}
    {allows : Bytes → Bytes → Type 0} ⦃stands : Stands look P⦄ (closed : Closed allows look P) where
  -- `approve`, with the parts that it reads.
  approve-keeps :
      (w : World p)
      → allows (part w.clients_command 2) (part w.clients_command 3)
      → P (look w)
      → P (look (approve w).1)
  unfolding approve
  approve-keeps w allowed h =
      let parts = w.clients_command in
      (Keeps-if (ltb (length parts) 4) _ _ (Keeps-log command _) (
          Keeps-bind (approve_client (part parts 2) (part parts 3)) _
            (Keeps-approve_client closed (part parts 2) (part parts 3) allowed)
            λ approved. Keeps-if approved _ (pure tt) (Keeps-log command _) (Keeps-pure tt))).at
        w h

  Keeps-list_waiting :
      (entries : List (Bytes × Client)) → Keeps {p = p} look P (list_waiting entries)
  unfolding list_waiting
  Keeps-list_waiting [] = Keeps-pure []
  Keeps-list_waiting ((id, client) ∷ entries) =
      Keeps-bind (gets λ w. p.is_open (w.sockets client.socket)) _ (Keeps-gets _) λ opened.
        Keeps-then (if not opened then log warning (id ++ codes ", leave") else pure tt) _
          (Keeps-if (not opened) _ (pure tt) (Keeps-log warning _) (Keeps-pure tt))
          (Keeps-bind (list_waiting entries) _ (Keeps-list_waiting entries)
            λ users. Keeps-pure (user_line (id, client) ∷ users))

  Keeps-show_users :
      (when_empty : Bytes) (users : List Bytes) → Keeps {p = p} look P (show_users when_empty users)
  unfolding show_users
  Keeps-show_users when_empty [] = Keeps-log command when_empty
  Keeps-show_users when_empty (user ∷ users) = Keeps-log command _

  Keeps-get_wait_clients : Keeps {p = p} look P get_wait_clients
  unfolding get_wait_clients
  Keeps-get_wait_clients = Keeps-bind (gets λ w. w.clients_command) _ (Keeps-gets _) λ parts.
      Keeps-if (ltb (length parts) 2) _ _ (Keeps-log command _) (
        Keeps-bind (access_wait_clients list_waiting) _
          (Keeps-access_wait_clients closed list_waiting Keeps-list_waiting) (Keeps-show_users _))

  Keeps-get_clients : Keeps {p = p} look P get_clients
  unfolding get_clients
  Keeps-get_clients = Keeps-bind (gets λ w. w.clients_command) _ (Keeps-gets _) λ parts.
      Keeps-if (ltb (length parts) 2) _ _ (Keeps-log command _) (
        Keeps-bind (access_clients λ entries. pure (user_lines entries)) _
          (record { at = λ w h. stands.rests w _ refl refl refl h })
          (Keeps-show_users (codes "No approved clients.")))

  -- What the operator may approve, where the command is `client approve`.
  run_operation-keeps :
      (o : Option Operation) (w : World p)
      → (o ≡ some approves → allows (part w.clients_command 2) (part w.clients_command 3))
      → P (look w)
      → P (look (run_operation o w).1)
  unfolding run_operation get_help
  run_operation-keeps none w allowed h = h
  run_operation-keeps (some help) w allowed h = stands.logs command _ w h
  run_operation-keeps (some approves) w allowed h = approve-keeps w (allowed refl) h
  run_operation-keeps (some waits) w allowed h = Keeps-get_wait_clients.at w h
  run_operation-keeps (some lists) w allowed h = Keeps-get_clients.at w h

  pub Keeps-execute :
      (cmd : List Bytes) → IsPermitted allows cmd → Keeps {p = p} look P (execute cmd)
  unfolding execute
  Keeps-execute cmd permitted = Keeps-if (ltb (length cmd) 2) _ _ (Keeps-log error _) (record {
    at = λ w h.
        run_operation-keeps (lookup (part cmd 1) operations) (record w { clients_command = cmd })
          permitted (stands.rests w _ refl refl refl h);
  })
