-- ===== src/Session.antt =====
-- include/net/Session.hpp and src/net/Session.cpp: the clients that wait, the clients that are
-- approved, and the tokens. Each function holds its mutexes over all that it changes.
pub mod Approval
pub mod Removal
pub mod Walk
pub mod Silence
pub mod Keeps
pub mod Turns
pub mod Closed
pub mod Admission
pub mod Safe
pub mod Blind
pub mod Valid
pub mod Invariant
use kuro_net.Prelude.{
  ℕ, Bool, true, false, not, ◌&&◌, ◌||◌, Option, none, some, List, [], ◌∷◌, ◌++◌, Eq, nat_eq,
  list_eq, String, ◌==◌, if◌then◌else◌,
}
use kuro_net.Prelude.Map.{lookup, emplace, erase}
use kuro_net.Text.{Bytes, codes}
use kuro_net.Logger.{Level, info, warning, error}
use kuro_net.Platform.{
  Platform, ErrorCode, success, not_connected, connection_reset, broken_pipe, eof, would_block,
}
use kuro_net.Exec.{
  Exec, Outcome, ok, throw, undefined, lift, Exception, system_error, ◌>>=◌, ◌>>◌, pure, raise,
  gets,
}
use kuro_net.World.{World, Client, Manager, log, on_socket}

-- A buffer over a string literal holds the zero byte at its end as well.
abbrev pub literal : String → Bytes
literal s = codes s ++ 0 ∷ []

-- `if (ec)`.
abbrev pub has_error : ErrorCode → Bool
has_error success = false
has_error _ = true

-- A call with no error code throws where there is an error.
abbrev pub check : {S : Type 0} → ErrorCode → Exec S (Unit {0})
check ec s = if has_error ec then (throw (system_error ec), s) else (ok tt, s)

-- `ec == not_connected || ec == connection_reset || ec == broken_pipe`.
abbrev lost_peer : ErrorCode → Bool
lost_peer not_connected = true
lost_peer connection_reset = true
lost_peer broken_pipe = true
lost_peer _ = false

-- The verdict on the error code of `read_some`.
abbrev read_verdict : ErrorCode → Bool
read_verdict eof = true
read_verdict would_block = false
read_verdict _ = true

-- The lookup of a token in `active_tokens_`, token by token.
unfoldable pub token_active : Bytes → List Bytes → Bool
token_active token [] = false
token_active token (t ∷ ts) = token == t || token_active token ts

module _ {p : Platform} where
  abbrev pub with_manager : (Manager → Manager) → World p → World p
  with_manager f w = record w { manager = f w.manager }

  abbrev set_manager : (Manager → Manager) → Exec (World p) (Unit {0})
  set_manager f w = (ok tt, with_manager f w)

  -- `boost::asio::write`, which throws.
  unfoldable pub write : ℕ → Bytes → Exec (World p) (Unit {0})
  write socket text = do ec ← on_socket (p.write text) socket; check ec

  abbrev is_open : ℕ → World p → Bool
  is_open socket w = p.is_open (w.sockets socket)

  -- The part of `is_client_really_dead` that reads a byte.
  probe : ℕ → Exec (World p) Bool
  probe socket = do
    blocking ← on_socket p.set_non_blocking socket
    check blocking
    ec ← on_socket p.read_some socket
    pure (read_verdict ec)

  unfoldable pub is_client_really_dead : ℕ → Exec (World p) Bool
  unfolding probe
  is_client_really_dead socket w =
      if not (is_open socket w)
      then (ok true, w)
      else if lost_peer ((p.remote_endpoint (w.sockets socket)).0)
      then (ok true, w)
      else probe socket w

  unfoldable pub add_client : Client → Exec (World p) (Unit {0})
  add_client client w = elim (lookup client.id w.manager.wait_clients) [
    | some _ ↦ log warning (codes "Client with id " ++ (client.id ++ codes " already exists")) w
    | none ↦
        (log info (codes "New client " ++ (client.id ++ codes " trying connect"))
            >> set_manager λ m. record m { wait_clients = emplace client.id client m.wait_clients })
          w
  ]

  -- The socket of a client that is removed.
  pub close_socket : Bytes → ℕ → Exec (World p) (Unit {0})
  close_socket id socket = do
    _ ← on_socket p.shutdown socket
    ec ← on_socket p.close socket
    if has_error ec
        then log warning
            (codes "Error closing socket for client " ++ (id ++ (codes ": " ++ p.message ec)))
        else pure tt

  unfoldable pub remove_client : Bytes → Exec (World p) (Unit {0})
  unfolding close_socket
  remove_client id w = elim (lookup id w.manager.clients) [
    | none ↦ log warning (codes "Client " ++ (id ++ codes " not found for removal")) w
    | some client ↦
        (do
          opened ← gets (is_open client.socket)
          if opened then close_socket id client.socket else pure tt
          set_manager λ m. record m { clients = erase id m.clients }
          log info (codes "Client " ++ (id ++ codes " removed successfully")))
          w
  ]

  unfoldable pub create_token : Bytes → Exec (World p) (Unit {0})
  create_token token = set_manager λ m. record m { active_tokens = m.active_tokens ++ token ∷ [] }

  -- `*wait_client_iter->second.socket`, behind the `extract` of the element.
  read_extracted : Exec (World p) (Unit {0})
  read_extracted = lift (if p.reads_extracted then ok tt else undefined)

  -- Behind the test of the token, with the entry of the waiting client. The entry is taken out
  -- before the write, for which the iterator of the entry is still read, and put in after it.
  admit : Bytes → Bytes → Option Client → Exec (World p) Bool
  unfolding read_extracted
  admit user_id token none = do
    log error (codes "User " ++ (user_id ++ codes " not found"))
    pure false
  admit user_id token (some client) = do
    set_manager λ m. record m { wait_clients = erase user_id m.wait_clients }
    read_extracted
    write client.socket (literal "You are approved\n")
    set_manager
        λ m. record m { clients = emplace user_id (record client { token = token }) m.clients }
    pure true

  unfoldable pub approve_client : Bytes → Bytes → Exec (World p) Bool
  unfolding admit
  approve_client user_id token w =
      if token_active token w.manager.active_tokens
      then admit user_id token (lookup user_id w.manager.wait_clients) w
      else (log error (codes "This token: " ++ (token ++ codes " - not found")) >>= λ _. pure false)
          w

  unfoldable pub auto_approve_client : Client → Exec (World p) (Unit {0})
  auto_approve_client client = do
    write client.socket (literal "You are auto approved")
    set_manager λ m. record m { clients = emplace client.id client m.clients }

  -- `access_clients` hands the map to the callback.
  abbrev pub access_clients :
      {A : Type 0} → (List (Bytes × Client) → Exec (World p) A) → Exec (World p) A
  access_clients callback w = callback w.manager.clients w

  pub drop_dead : Bytes → ℕ → Exec (World p) (Unit {0})
  drop_dead id socket = do
    log warning (codes "Removing dead client: " ++ id)
    _ ← on_socket p.shutdown socket
    _ ← on_socket p.close socket
    set_manager λ m. record m { wait_clients = erase id m.wait_clients }

  -- The loop of `access_wait_clients`, over the entries that are still to come.
  unfoldable pub sweep : List (Bytes × Client) → Exec (World p) (Unit {0})
  unfolding drop_dead
  sweep [] = pure tt
  sweep ((id, client) ∷ entries) = do
    dead ← is_client_really_dead client.socket
    if dead then drop_dead id client.socket else pure tt
    sweep entries

  unfoldable pub access_wait_clients :
      {A : Type 0} → (List (Bytes × Client) → Exec (World p) A) → Exec (World p) A
  access_wait_clients callback = do
    entries ← gets λ w. w.manager.wait_clients
    sweep entries
    rest ← gets λ w. w.manager.wait_clients
    callback rest
