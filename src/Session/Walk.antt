-- ===== src/Session/Walk.antt =====
-- The walk of `access_wait_clients` as a whole: whom it keeps, and what it hands to the callback.
pub mod Filter
use kuro_net.Prelude.{
  ℕ, ◌≡◌, ◌≢◌, inl, inr, refl, sym, ap, ◌∙◌, Bool, true, false, not, ◌&&◌, none, List, [], ◌∷◌,
  ◌++◌, nat_eq, list_eq, ◌==◌, if◌then◌else◌, arith, Bool-cases, All, list_beq_iff, nat_beq_iff,
  beq_refl,
}
use kuro_net.Prelude.Map.{lookup, erase, IsUnique}
use kuro_net.Text.{Bytes}
use kuro_net.Platform.{
  Platform, ErrorCode, success, not_connected, connection_reset, broken_pipe, eof, would_block,
  other_error,
}
use kuro_net.Exec.{Exec, ok, pure, ◌>>=◌}
use kuro_net.World.{World, Client, Manager, View, view, update}
use kuro_net.Session.{
  is_client_really_dead, is_open, lost_peer, has_error, read_verdict, probe, sweep, drop_dead,
  access_wait_clients,
}
use kuro_net.Session.Keeps.{forget_waiting}

abbrev nothing_to_read : ErrorCode → Bool
nothing_to_read would_block = true
nothing_to_read _ = false

verdict_lem : (ec : ErrorCode) → read_verdict ec ≡ not (nothing_to_read ec)
verdict_lem success = refl
verdict_lem not_connected = refl
verdict_lem connection_reset = refl
verdict_lem broken_pipe = refl
verdict_lem eof = refl
verdict_lem would_block = refl
verdict_lem (other_error n) = refl

update_self : {A : Type 0} (f : ℕ → A) (k : ℕ) (a : A) → update f k a k ≡ a
update_self f k a = rw (beq_refl k)

ne-beq : (k s : ℕ) → s ≢ k → (k == s) ≡ false
ne-beq k s ne = ground (arith, nat_beq_iff k s)

-- The socket is open, its peer does not count as lost, and it has nothing to read.
abbrev pub is_idle : (p : Platform) → p.Sock → Bool
is_idle p s =
    p.is_open s
    && (not (lost_peer ((p.remote_endpoint s).0))
        && nothing_to_read ((p.read_some ((p.set_non_blocking s).1)).0))

abbrev pub IsSettable : (p : Platform) → p.Sock → Type 0
IsSettable p s = has_error ((p.set_non_blocking s).0) ≡ false

abbrev pub judged : Bool → Bytes → View → View
judged true id v = v
judged false id v = forget_waiting id v

module _ {p : Platform} where
  abbrev pub Spares : ℕ → World p → World p → Type 0
  Spares socket w v = (s : ℕ) → s ≢ socket → v.sockets s ≡ w.sockets s

  probes :
      (socket : ℕ) (w : World p)
      → IsSettable p (w.sockets socket)
      → (v : World p) × (probe socket w
          ≡ (ok (read_verdict ((p.read_some ((p.set_non_blocking (w.sockets socket)).1)).0)), v))
        × (view v ≡ view w)
        × Spares socket w v
  unfolding probe
  probes socket w settable = (
    record w {
      sockets =
          update (update w.sockets socket (p.set_non_blocking (w.sockets socket)).1) socket
            (p.read_some ((p.set_non_blocking (w.sockets socket)).1)).1;
    },
    rw (settable, update_self w.sockets socket ((p.set_non_blocking (w.sockets socket)).1)) refl,
    refl,
    λ s ne. rw (ne-beq socket s ne) refl,
  )

  -- The verdict on one socket, which touches that socket only.
  judges :
      (socket : ℕ) (w : World p)
      → IsSettable p (w.sockets socket)
      → (v : World p) × (is_client_really_dead socket w
          ≡ (ok (not (is_idle p (w.sockets socket))), v))
        × (view v ≡ view w)
        × Spares socket w v
  unfolding is_client_really_dead
  judges socket w settable = elim (Bool-cases (is_open socket w)) [
    | inl opened ↦ elim (Bool-cases (lost_peer ((p.remote_endpoint (w.sockets socket)).0))) [
      | inl lost ↦ (w, rw (opened, lost) refl, refl, λ s ne. refl)
      | inr peer ↦
          let (v, ends, same, spared) = probes socket w settable in
          (v, rw (opened, peer, ends, verdict_lem) refl, same, spared)
    ]
    | inr shut ↦ (w, rw shut refl, refl, λ s ne. refl)
  ]

  drops :
      (id : Bytes) (socket : ℕ) (w : World p)
      → (v : World p) × (drop_dead id socket w ≡ (ok tt, v))
        × (view v ≡ forget_waiting id (view w))
        × Spares socket w v
  unfolding drop_dead
  drops id socket w = ((drop_dead id socket w).1, refl, refl, λ s ne. rw (ne-beq socket s ne) refl)

  abbrev pub turn : Bytes × Client → Exec (World p) (Unit {0})
  turn (id, c) =
      is_client_really_dead c.socket >>= λ dead. if dead then drop_dead id c.socket else pure tt

  -- The turn of one client.
  pub turns :
      (id : Bytes) (c : Client) (w : World p)
      → IsSettable p (w.sockets c.socket)
      → (v : World p) × (turn (id, c) w ≡ (ok tt, v))
        × (view v ≡ judged (is_idle p (w.sockets c.socket)) id (view w))
        × Spares c.socket w v
  turns id c w settable =
      let (u, ends, same, spared) = judges c.socket w settable in
      elim (Bool-cases (is_idle p (w.sockets c.socket))) [
        | inl idle ↦ (u, rw (ends, idle) refl, rw idle same, spared)
        | inr dead ↦
            let (v, ends', same', spared') = drops id c.socket u in
            (
              v,
              rw (ends, dead, ends') refl,
              rw dead (same' ∙ ap (forget_waiting id) same),
              λ s ne. spared' s ne ∙ spared s ne,
            )
      ]
