-- ===== src/Session/Safe.antt =====
-- The operations of the session have no undefined behaviour, but for `approve_client`, which `Approval`
-- is about.
use kuro_net.Prelude.{
  ℕ, inl, inr, not, true, List, [], ◌∷◌, nat_eq, list_eq, Option-cases, Bool-cases, if◌then◌else◌,
}
use kuro_net.Prelude.Map.{lookup}
use kuro_net.Text.{Bytes}
use kuro_net.Logger.{Level}
use kuro_net.Platform.{Platform, ErrorCode}
use kuro_net.Exec.{Exec, ◌>>◌, pure}
use kuro_net.Exec.Safe.{Safe, Safe-pure, Safe-bind, Safe-then, Safe-if, Safe-reads, Safe-choose}
use kuro_net.Random.{random_generate_str}
use kuro_net.Random.Shape.{random_generate_str_lem}
use kuro_net.World.{World, Client, Pending, log, on_socket, start_operation}
use kuro_net.Session.{
  sweep, drop_dead, check, has_error, write, is_client_really_dead, is_open, lost_peer, probe,
  read_verdict, add_client, auto_approve_client, access_wait_clients, remove_client,
}
use kuro_net.Session.Removal.{remove_client_lem}

module _ {p : Platform} {X : Type 0} where
  pub Safe-log : (level : Level) (text : Bytes) → Safe {S = World p} X (log level text)
  Safe-log level text = record { at = λ w e. cc }

  pub Safe-on_socket :
      (call : p.Sock → ErrorCode × p.Sock) (socket : ℕ)
      → Safe {S = World p} X (on_socket {p = p} call socket)
  Safe-on_socket call socket = record { at = λ w e. cc }

  pub Safe-start_operation : (op : Pending) → Safe {S = World p} X (start_operation op)
  Safe-start_operation op = record { at = λ w e. cc }

  pub Safe-random_generate_str : (n : ℕ) → Safe {S = World p} X (random_generate_str n)
  Safe-random_generate_str n = record { at = λ w e. cc (rw (random_generate_str_lem n w) at e) }

  pub Safe-check : (ec : ErrorCode) → Safe {S = World p} X (check ec)
  Safe-check ec = record {
    at = λ w e. elim (Bool-cases (has_error ec)) [
      | inl bad ↦ cc (rw bad at e)
      | inr good ↦ cc (rw good at e)
    ];
  }

  pub Safe-write : (socket : ℕ) (text : Bytes) → Safe {S = World p} X (write socket text)
  unfolding write
  Safe-write socket text =
      Safe-bind (on_socket (p.write text) socket) check (Safe-on_socket (p.write text) socket)
        Safe-check

  Safe-probe : (socket : ℕ) → Safe {S = World p} X (probe socket)
  unfolding probe
  Safe-probe socket =
      Safe-bind (on_socket p.set_non_blocking socket) _ (Safe-on_socket p.set_non_blocking socket)
        λ blocking. Safe-then (check blocking) _ (Safe-check blocking) (
          Safe-bind (on_socket p.read_some socket) _ (Safe-on_socket p.read_some socket)
            λ ec. Safe-pure (read_verdict ec))

  Safe-is_client_really_dead : (socket : ℕ) → Safe {S = World p} X (is_client_really_dead socket)
  unfolding is_client_really_dead
  Safe-is_client_really_dead socket =
      Safe-choose (λ w. not (is_open socket w)) (pure true) _ (Safe-pure true)
        (Safe-choose (λ w. lost_peer ((p.remote_endpoint (w.sockets socket)).0)) (pure true)
          (probe socket) (Safe-pure true) (Safe-probe socket))

  Safe-drop_dead : (id : Bytes) (socket : ℕ) → Safe {S = World p} X (drop_dead id socket)
  unfolding drop_dead
  Safe-drop_dead id socket = record { at = λ w e. cc }

  Safe-sweep : (entries : List (Bytes × Client)) → Safe {S = World p} X (sweep entries)
  unfolding sweep
  Safe-sweep [] = Safe-pure tt
  Safe-sweep ((id, c) ∷ entries) =
      Safe-bind (is_client_really_dead c.socket) _ (Safe-is_client_really_dead c.socket) λ dead.
        Safe-then (if dead then drop_dead id c.socket else pure tt) _
          (Safe-if dead (drop_dead id c.socket) (pure tt) (λ yes. Safe-drop_dead id c.socket)
            (λ no. Safe-pure tt))
          (Safe-sweep entries)

  pub Safe-access_wait_clients :
      {A : Type 0} (callback : List (Bytes × Client) → Exec (World p) A)
      → ((entries : List (Bytes × Client)) → Safe X (callback entries))
      → Safe X (access_wait_clients callback)
  unfolding access_wait_clients
  Safe-access_wait_clients callback safe =
      Safe-reads (λ w. w.manager.wait_clients)
        (λ entries. sweep entries >> λ u. callback u.manager.wait_clients u)
        λ entries.
          Safe-then (sweep entries) (λ u. callback u.manager.wait_clients u) (Safe-sweep entries)
            (Safe-reads (λ u. u.manager.wait_clients) callback safe)

  pub Safe-remove_client : (id : Bytes) → Safe {S = World p} X (remove_client id)
  Safe-remove_client id = record { at = λ w e. cc ((remove_client_lem id w).0) }

  pub Safe-add_client : (client : Client) → Safe {S = World p} X (add_client client)
  unfolding add_client
  Safe-add_client client = record {
    at = λ w e. elim (Option-cases (lookup client.id w.manager.wait_clients)) [
      | inl absent ↦ cc (rw (add_client, absent) at e)
      | inr (old, there) ↦ cc (rw (add_client, there) at e)
    ];
  }

  pub Safe-auto_approve_client :
      (client : Client) → Safe {S = World p} X (auto_approve_client client)
  unfolding auto_approve_client
  Safe-auto_approve_client client =
      Safe-then (write client.socket _) _ (Safe-write client.socket _) (record { at = λ w e. cc })
