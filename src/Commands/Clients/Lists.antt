-- ===== src/Commands/Clients/Lists.antt =====
-- What `client waits` shows.
use kuro_net.Logger.Clock.{current_time}
use kuro_net.Prelude.{
  ℕ, suc, ◌≡◌, refl, ap, ◌∙◌, false, inl, inr, List, [], ◌∷◌, ◌++◌, nat_eq, list_eq, arith, length,
  list_beq, ltb, Bool-cases,
}
use kuro_net.Prelude.Map.{lookup, emplace, IsUnique}
use kuro_net.Text.{Bytes, codes}
use kuro_net.Logger.{command, warning, Logger}
use kuro_net.Logger
use kuro_net.Platform.{Platform}
use kuro_net.Exec.{ok}
use kuro_net.World.{World, Client, view, log}
use kuro_net.Session.Walk.Filter.{
  IsApart, AllSettable, idle_entries, with_waits, access_wait_clients-idle_entries,
}
use kuro_net.Commands.Clients.{
  execute, get_wait_clients, list_waiting, show_users, user_lines, users_list_str,
}

-- The text of a list of users: a line for each, or the text for none.
abbrev pub shown : Bytes → List Bytes → Bytes
shown when_empty [] = when_empty
shown when_empty (user ∷ users) = codes "Clients list:\n" ++ users_list_str (user ∷ users)

two_parts : (n : ℕ) → ltb (suc (suc n)) 2 ≡ false
two_parts n = ground arith

module _ {p : Platform} where
  show_users-shown :
      (when_empty : Bytes) (users : List Bytes) (w : World p)
      → show_users when_empty users w ≡ log command (shown when_empty users) w
  unfolding show_users
  show_users-shown when_empty [] w = refl
  show_users-shown when_empty (user ∷ users) w = refl

  list_waiting_lem :
      (entries : List (Bytes × Client)) (w : World p)
      → (v : World p) × (list_waiting entries w ≡ (ok (user_lines entries), v)) × (view v ≡ view w)
  unfolding list_waiting user_lines
  list_waiting_lem [] w = (w, refl, refl)
  list_waiting_lem ((id, c) ∷ entries) w = elim (Bool-cases (p.is_open (w.sockets c.socket))) [
    | inl opened ↦
        let (v, ends, same) = list_waiting_lem entries w in (v, rw (opened, ends) refl, same)
    | inr shut ↦
        let warned = (log warning (id ++ codes ", leave") w).1 in
        let (v, ends, same) = list_waiting_lem entries warned in (v, rw (shut, ends) refl, same)
  ]

  -- `client waits`, where the walk of `access_wait_clients` has distinct sockets that can be set not to
  -- block: the command returns, and the last line that it logs lists the clients whose sockets are
  -- idle, or says that there are none. Only they wait then.
  pub execute_waits :
      (name : Bytes) (rest : List Bytes) (w : World p)
      → IsUnique w.manager.wait_clients
      → IsApart w.manager.wait_clients
      → AllSettable p w.sockets w.manager.wait_clients
      → let r = execute (name ∷ codes "waits" ∷ rest) w in
        let idle = idle_entries p w.sockets w.manager.wait_clients in
        (r.0 ≡ ok tt)
        × (view r.1 ≡ with_waits idle (view w))
        × ((before : Logger) × (r.1.logger
              ≡ Logger.log
                  (current_time p.clock)
                  command
                  (shown (codes "No clients in queue.") (user_lines idle))
                  before))
  unfolding execute get_wait_clients list_beq lookup emplace
  execute_waits name rest w unique apart settable =
      let cmd : List Bytes = name ∷ codes "waits" ∷ rest in
      let (u, walked, put) =
        access_wait_clients-idle_entries list_waiting (record w { clients_command = cmd }) unique
          apart settable in
      let (v, listed, same) =
        list_waiting_lem (idle_entries p w.sockets w.manager.wait_clients) u in
      let text =
        shown (codes "No clients in queue.")
          (user_lines (idle_entries p w.sockets w.manager.wait_clients)) in
      let ran : execute cmd w
          ≡ (ok tt, record v { logger = Logger.log (current_time p.clock) command text v.logger }) =
        rw (execute, two_parts (length rest))
          (rw (two_parts (length rest), walked, listed, show_users-shown) refl) in
      (ap (λ r. r.0) ran, ap (λ r. view r.1) ran ∙ same ∙ put, (v.logger, ap (λ r. r.1.logger) ran))
