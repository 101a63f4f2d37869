-- ===== src/Session/Removal.antt =====
-- What `remove_client` does, and which waiting clients count as dead.
use kuro_net.Prelude.{
  ℕ, ◌≡◌, ◌≢◌, ◌↔◌, inl, inr, refl, Bool, true, false, none, List, ◌∷◌, nat_eq, list_eq, ◌==◌,
  if◌then◌else◌, arith, Bool-cases, Option-cases, list_beq_iff,
}
use kuro_net.Prelude.Map.{lookup, erase, lookup-erase, lookup-erase_self}
use kuro_net.Text.{Bytes}
use kuro_net.Platform.{
  Platform, ErrorCode, success, not_connected, connection_reset, broken_pipe, eof, would_block,
  other_error,
}
use kuro_net.Exec.{ok, pure}
use kuro_net.World.{World, Client, Manager, update, view}
use kuro_net.Session.{
  remove_client, close_socket, is_client_really_dead, is_open, lost_peer, has_error, sweep,
  drop_dead,
}
use kuro_net.Session.Keeps.{Keeps, sweep-rule, view-Stands}

abbrev pub IsGone : Bytes → Manager → Type 0
IsGone id m = lookup id m.wait_clients ≡ none

erase-IsGone :
    (id j : Bytes) (m : Manager)
    → IsGone id m
    → IsGone id (record m { wait_clients = erase j m.wait_clients })
erase-IsGone id j m gone = rw (lookup-erase j id m.wait_clients) (ground arith)

-- Which errors count as a lost peer.
lost_peer_iff :
    (ec : ErrorCode)
    → (lost_peer ec ≡ false) ↔ ((ec ≢ not_connected) × (ec ≢ connection_reset) × (ec ≢ broken_pipe))
lost_peer_iff success = (λ e. (λ n. cc, λ n. cc, λ n. cc), λ h. refl)
lost_peer_iff not_connected = (λ e. cc, λ h. absurd (h.0 refl))
lost_peer_iff connection_reset = (λ e. cc, λ h. absurd (h.1 refl))
lost_peer_iff broken_pipe = (λ e. cc, λ h. absurd (h.2 refl))
lost_peer_iff eof = (λ e. (λ n. cc, λ n. cc, λ n. cc), λ h. refl)
lost_peer_iff would_block = (λ e. (λ n. cc, λ n. cc, λ n. cc), λ h. refl)
lost_peer_iff (other_error n) = (λ e. (λ n. cc, λ n. cc, λ n. cc), λ h. refl)

pub no_error : (ec : ErrorCode) → has_error ec ≡ false → ec ≡ success
no_error ec h = ground arith

module _ {p : Platform} where
  closes :
      (id : Bytes) (socket : ℕ) (opened : Bool) (w : World p)
      → (v : World p) × ((if opened then close_socket id socket else pure tt) w ≡ (ok tt, v))
        × (v.manager ≡ w.manager)
  unfolding close_socket
  closes id socket false w = (w, refl, refl)
  closes id socket true w =
      let shut = update w.sockets socket ((p.shutdown (w.sockets socket)).1) in
      let closed = (close_socket id socket w).1 in
      elim (Bool-cases (has_error ((p.close (shut socket)).0))) [
        | inl e ↦ (closed, rw (e, close_socket) refl, rw (e, close_socket) refl)
        | inr e ↦ (closed, rw (e, close_socket) refl, rw (e, close_socket) refl)
      ]

  -- `remove_client` returns, whatever the socket says. The id is no client's then; the other entries stay, and so
  -- do the clients that wait.
  pub remove_client_lem :
      (id : Bytes) (w : World p)
      → ((remove_client id w).0 ≡ ok tt)
        × ((remove_client id w).1.manager.wait_clients ≡ w.manager.wait_clients)
        × ((j : Bytes)
            → lookup j (remove_client id w).1.manager.clients
              ≡ (if id == j then none else lookup j w.manager.clients))
  unfolding remove_client
  remove_client_lem id w = elim (Option-cases (lookup id w.manager.clients)) [
    | inl e ↦ rw (e, remove_client) (refl, refl, λ j. ground (arith, list_beq_iff id j))
    | inr (c, e) ↦
        let (v, ends, kept) = closes id c.socket (is_open c.socket w) w in
        rw (e, remove_client, ends, kept) (refl, refl, λ j. lookup-erase id j w.manager.clients)
  ]

  -- The socket is open, its remote endpoint is told with none of three errors, it can be set not to
  -- block, and it has nothing to read.
  pub record IsIdle (socket : ℕ) (w : World p) : Type 0 where
    pub opened : p.is_open (w.sockets socket) ≡ true
    pub connected : (p.remote_endpoint (w.sockets socket)).0 ≢ not_connected
    pub not_reset : (p.remote_endpoint (w.sockets socket)).0 ≢ connection_reset
    pub not_broken : (p.remote_endpoint (w.sockets socket)).0 ≢ broken_pipe
    pub settable : (p.set_non_blocking (w.sockets socket)).0 ≡ success
    pub empty : (p.read_some ((p.set_non_blocking (w.sockets socket)).1)).0 ≡ would_block

  pub IsIdle-alive :
      (socket : ℕ) (w : World p) → IsIdle socket w → (is_client_really_dead socket w).0 ≡ ok false
  unfolding is_client_really_dead
  IsIdle-alive socket w h =
      let peer =
        (lost_peer_iff ((p.remote_endpoint (w.sockets socket)).0)).1
          (h.connected, h.not_reset, h.not_broken) in
      let set : has_error ((p.set_non_blocking (w.sockets socket)).0) ≡ false =
        rw h.settable refl in
      ground (arith, h.opened, peer, set, h.empty)

  -- A client that waits counts as alive exactly if its socket is open, its remote endpoint is told with
  -- neither of the errors not_connected, connection_reset and broken_pipe, it can be set not to block,
  -- and a read from it reports would_block.
  pub alive_iff_IsIdle :
      (socket : ℕ) (w : World p) → ((is_client_really_dead socket w).0 ≡ ok false) ↔ IsIdle socket w
  unfolding is_client_really_dead
  alive_iff_IsIdle socket w = (alive, IsIdle-alive socket w)
    where
      alive : (is_client_really_dead socket w).0 ≡ ok false → IsIdle socket w
      alive e =
          let ec = (p.remote_endpoint (w.sockets socket)).0 in
          let peer : lost_peer ec ≡ false = ground arith in
          let set : has_error ((p.set_non_blocking (w.sockets socket)).0) ≡ false = ground arith in
          let told = (lost_peer_iff ec).0 peer in
          record {
            opened = ground arith;
            connected = told.0;
            not_reset = told.1;
            not_broken = told.2;
            settable = no_error _ set;
            empty = ground arith;
          }

  sweep-Keeps :
      (id : Bytes) (entries : List (Bytes × Client))
      → Keeps {p = p} view (λ v. IsGone id v.manager) (sweep entries)
  sweep-Keeps id entries = sweep-rule (λ j w. erase-IsGone id j w.manager) entries

  talking_is_dead :
      (socket : ℕ) (w : World p)
      → is_open socket w ≡ true
      → lost_peer ((p.remote_endpoint (w.sockets socket)).0) ≡ false
      → has_error ((p.set_non_blocking (w.sockets socket)).0) ≡ false
      → (p.read_some ((p.set_non_blocking (w.sockets socket)).1)).0 ≡ success
      → (is_client_really_dead socket w).0 ≡ ok true
  unfolding is_client_really_dead
  talking_is_dead socket w opened peer settable data_in = ground arith

  -- A client whose turn it is in the walk, with an open socket, a peer, and data that has come in, counts as
  -- dead: it waits no longer after the walk, whatever follows.
  pub sweep_drops_talking :
      (id : Bytes) (c : Client) (entries : List (Bytes × Client)) (w : World p)
      → is_open c.socket w ≡ true
      → lost_peer ((p.remote_endpoint (w.sockets c.socket)).0) ≡ false
      → has_error ((p.set_non_blocking (w.sockets c.socket)).0) ≡ false
      → (p.read_some ((p.set_non_blocking (w.sockets c.socket)).1)).0 ≡ success
      → IsGone id (sweep ((id, c) ∷ entries) w).1.manager
  unfolding sweep drop_dead
  sweep_drops_talking id c entries w opened peer settable data_in =
      let dead = talking_is_dead c.socket w opened peer settable data_in in
      rw (sweep, dead) ((sweep-Keeps id entries).at _ (lookup-erase_self id _))
