-- ===== src/Commands/Clients.antt =====
-- include/core/commands/clients_command.hpp and src/core/commands/clients_command.cpp.
pub mod Outcomes
pub mod Keeps
pub mod Safe
pub mod Blind
pub mod Lists
use kuro_net.Prelude.{
  ℕ, ◌+◌, Bool, true, false, not, Option, none, some, List, [], ◌∷◌, ◌++◌, nat_eq, list_eq, ltb,
  ◌==◌, if◌then◌else◌, length, get_or,
}
use kuro_net.Prelude.Map.{lookup, emplace}
use kuro_net.Text.{Bytes, codes}
use kuro_net.Logger.{error, warning, command}
use kuro_net.Platform.{Platform}
use kuro_net.Exec.{Exec, Outcome, ok, ◌>>=◌, ◌>>◌, pure, gets}
use kuro_net.Session.{approve_client, access_clients, access_wait_clients}
use kuro_net.World.{World, Client, log}
use kuro_net.Commands.Token.{names, part}

-- The functions that `operations` maps names to.
pub data Operation : Type 0 where
  help approves waits lists : Operation

-- `init_operations`, on the empty map.
abbrev pub operations : List (Bytes × Operation)
operations = emplace (codes "list") lists (
    emplace (codes "waits") waits
      (emplace (codes "approve") approves (emplace (codes "help") help [])))

-- The line of a client in a list.
abbrev pub user_line : Bytes × Client → Bytes
user_line (id, client) = id ++ (codes " | " ++ client.login)

-- The users, one to a line.
unfoldable pub users_list_str : List Bytes → Bytes
users_list_str [] = []
users_list_str (user ∷ users) = user ++ (codes "\n" ++ users_list_str users)

unfoldable pub user_lines : List (Bytes × Client) → List Bytes
user_lines [] = []
user_lines (e ∷ entries) = user_line e ∷ user_lines entries

module _ {p : Platform} where
  unfoldable pub get_help : Exec (World p) (Unit {0})
  get_help =
      log command (
        codes "Type \"help\" for see that message\n"
        ++ (codes "Clients help\n" ++ names operations))

  unfoldable pub approve : Exec (World p) (Unit {0})
  approve = do
    parts ← gets λ w. w.clients_command
    if ltb (length parts) 4
        then log command (codes "Command Error: client approve <user id> <token>")
        else do
          approved ← approve_client (part parts 2) (part parts 3)
          if approved
              then log command (codes "Client: " ++ (part parts 2 ++ codes ", approved succesfuly"))
              else pure tt

  -- The loop over the waiting clients, with its warnings.
  list_waiting : List (Bytes × Client) → Exec (World p) (List Bytes)
  list_waiting [] = pure []
  list_waiting ((id, client) ∷ entries) = do
    opened ← gets λ w. p.is_open (w.sockets client.socket)
    if not opened then log warning (id ++ codes ", leave") else pure tt
    users ← list_waiting entries
    pure (user_line (id, client) ∷ users)

  -- The list of users, or the line for an empty one.
  show_users : Bytes → List Bytes → Exec (World p) (Unit {0})
  show_users when_empty [] = log command when_empty
  show_users when_empty (user ∷ users) =
      log command (codes "Clients list:\n" ++ users_list_str (user ∷ users))

  unfoldable pub get_wait_clients : Exec (World p) (Unit {0})
  unfolding list_waiting show_users
  get_wait_clients = do
    parts ← gets λ w. w.clients_command
    if ltb (length parts) 2
        then log command (codes "Command error: type client <jurisdiction>")
        else do
          users ← access_wait_clients list_waiting
          show_users (codes "No clients in queue.") users

  unfoldable pub get_clients : Exec (World p) (Unit {0})
  unfolding show_users
  get_clients = do
    parts ← gets λ w. w.clients_command
    if ltb (length parts) 2
        then log command (codes "Command error: type client <jurisdiction>")
        else do
          users ← access_clients λ entries. pure (user_lines entries)
          show_users (codes "No approved clients.") users

  run_operation : Option Operation → Exec (World p) (Unit {0})
  run_operation none = pure tt
  run_operation (some help) = get_help
  run_operation (some approves) = approve
  run_operation (some waits) = get_wait_clients
  run_operation (some lists) = get_clients

  unfoldable pub execute : List Bytes → Exec (World p) (Unit {0})
  unfolding run_operation
  execute cmd =
      if ltb (length cmd) 2
      then log error (codes "Type \"client help\"")
      else (set_command >> run_operation (lookup (part cmd 1) operations))
    where
      set_command : Exec (World p) (Unit {0})
      set_command w = (ok tt, record w { clients_command = cmd })
