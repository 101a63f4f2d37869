-- ===== src/Session/Walk/Filter.antt =====
-- The walk over all waiting clients, against a filter of the map.
use mathlib.Core.List.{append_assoc}
use kuro_net.Prelude.{
  ℕ, ◌≡◌, ◌≢◌, inl, inr, refl, sym, ap, ◌∙◌, List, [], ◌∷◌, ◌++◌, nat_eq, list_eq, if◌then◌else◌,
  Bool-cases, All,
}
use kuro_net.Prelude.Map.{erase, IsUnique, erase-IsUnique, erase-middle}
use kuro_net.Text.{Bytes}
use kuro_net.Platform.{Platform}
use kuro_net.Exec.{Exec, ok, after, after_assoc}
use kuro_net.World.{World, Client, View, view}
use kuro_net.Session.{is_client_really_dead, sweep, access_wait_clients}
use kuro_net.Session.Keeps.{forget_waiting}
use kuro_net.Session.Walk.{is_idle, IsSettable, Spares, turn, turns}

-- The entries whose sockets are idle.
unfoldable pub idle_entries :
    (p : Platform) → (ℕ → p.Sock) → List (Bytes × Client) → List (Bytes × Client)
idle_entries p sockets [] = []
idle_entries p sockets ((id, c) ∷ entries) =
    let rest = idle_entries p sockets entries in
    if is_idle p (sockets c.socket) then (id, c) ∷ rest else rest

-- No socket stands in two entries.
abbrev pub IsApart : List (Bytes × Client) → Type 0
IsApart [] = Unit
IsApart ((id, c) ∷ entries) = All (λ e. e.1.socket ≢ c.socket) entries × IsApart entries

abbrev pub AllSettable : (p : Platform) → (ℕ → p.Sock) → List (Bytes × Client) → Type 0
AllSettable p sockets entries = All (λ e. IsSettable p (sockets (e.1.socket))) entries

abbrev pub with_waits : List (Bytes × Client) → View → View
with_waits entries v = record v { manager = record v.manager { wait_clients = entries } }

module _ {p : Platform} where
  idle_entries-spared :
      (k : ℕ) (entries : List (Bytes × Client)) (w v : World p)
      → All (λ e. e.1.socket ≢ k) entries
      → Spares k w v
      → idle_entries p v.sockets entries ≡ idle_entries p w.sockets entries
  unfolding idle_entries
  idle_entries-spared k [] w v apart spared = refl
  idle_entries-spared k ((id, c) ∷ entries) w v apart spared =
      rw (spared c.socket apart.0, idle_entries-spared k entries w v apart.1 spared) refl

  AllSettable-spared :
      (k : ℕ) (entries : List (Bytes × Client)) (w v : World p)
      → All (λ e. e.1.socket ≢ k) entries
      → Spares k w v
      → AllSettable p w.sockets entries
      → AllSettable p v.sockets entries
  AllSettable-spared k [] w v apart spared all = tt
  AllSettable-spared k ((id, c) ∷ entries) w v apart spared all =
      (rw (spared c.socket apart.0) all.0, AllSettable-spared k entries w v apart.1 spared all.1)

  sweep-turn :
      (id : Bytes) (c : Client) (entries : List (Bytes × Client)) (w u : World p)
      → turn (id, c) w ≡ (ok tt, u)
      → sweep ((id, c) ∷ entries) w ≡ sweep entries u
  unfolding sweep
  sweep-turn id c entries w u ends =
      sym (after_assoc (is_client_really_dead c.socket w) _ (λ _. sweep entries))
      ∙ ap (λ r. after r (λ _. sweep entries)) ends

  settles :
      (found wanted : List (Bytes × Client)) (f : View → View) (v u w : World p)
      → view v ≡ with_waits found (view u)
      → view u ≡ f (view w)
      → with_waits found (f (view w)) ≡ with_waits found (view w)
      → found ≡ wanted
      → view v ≡ with_waits wanted (view w)
  settles found wanted f v u w put turned over same =
      put ∙ ap (with_waits found) turned ∙ over ∙ ap (λ entries. with_waits entries (view w)) same

  sweep_lem :
      (kept entries : List (Bytes × Client)) (w : World p)
      → w.manager.wait_clients ≡ kept ++ entries
      → IsUnique (kept ++ entries)
      → IsApart entries
      → AllSettable p w.sockets entries
      → (v : World p) × (sweep entries w ≡ (ok tt, v))
        × (view v ≡ with_waits (kept ++ idle_entries p w.sockets entries) (view w))
  unfolding sweep idle_entries
  sweep_lem kept [] w start unique apart settable = (w, refl, rw (← start) refl)
  sweep_lem kept ((id, c) ∷ entries) w start unique apart settable =
      let (u, ends, turned, spared) = turns id c w settable.0 in
      let apart_u = idle_entries-spared c.socket entries w u apart.0 spared in
      let settable_u = AllSettable-spared c.socket entries w u apart.0 spared settable.1 in
      elim (Bool-cases (is_idle p (w.sockets c.socket))) [
        | inl idle ↦
            let same : view u ≡ view w = rw idle at turned in
            let shift = append_assoc kept ((id, c) ∷ []) entries in
            let (v, swept, put) =
              sweep_lem (kept ++ (id, c) ∷ []) entries u
                (ap (λ (x : View). x.manager.wait_clients) same ∙ start ∙ sym shift)
                (rw shift unique) apart.1 settable_u in
            (
              v,
              sweep-turn id c entries w u ends ∙ swept,
              settles _ _ (λ x. x) v u w put same refl
                  (rw (idle, apart_u)
                    (append_assoc kept ((id, c) ∷ []) (idle_entries p w.sockets entries))),
            )
        | inr dead ↦
            let same : view u ≡ forget_waiting id (view w) = rw dead at turned in
            let gone = erase-middle id c kept entries unique in
            let (v, swept, put) =
              sweep_lem kept entries u
                (ap (λ (x : View). x.manager.wait_clients) same ∙ ap (erase id) start ∙ gone)
                (rw (← gone) (erase-IsUnique id _ unique)) apart.1 settable_u in
            (
              v,
              sweep-turn id c entries w u ends ∙ swept,
              settles _ _ (forget_waiting id) v u w put same refl (rw (dead, apart_u) refl),
            )
      ]

  -- The walk over the waiting clients, when each id has one entry, no two share a socket, and each
  -- socket can be set not to block: it returns and hands to the callback exactly the entries whose
  -- sockets were idle before (open, with a peer that is known, and nothing to read), in their order.
  -- Those are the clients that wait then; the approved clients, the tokens, the registry, the started
  -- operations and the number of the next socket stay as they were.
  pub access_wait_clients-idle_entries :
      {A : Type 0} (callback : List (Bytes × Client) → Exec (World p) A) (w : World p)
      → IsUnique w.manager.wait_clients
      → IsApart w.manager.wait_clients
      → AllSettable p w.sockets w.manager.wait_clients
      → (v : World p) × (access_wait_clients callback w
          ≡ callback (idle_entries p w.sockets w.manager.wait_clients) v)
        × (view v ≡ with_waits (idle_entries p w.sockets w.manager.wait_clients) (view w))
  unfolding access_wait_clients
  access_wait_clients-idle_entries callback w unique apart settable =
      let (v, swept, put) = sweep_lem [] w.manager.wait_clients w refl unique apart settable in
      let rest = ap (λ (x : View). x.manager.wait_clients) put in (v, rw (swept, rest) refl, put)
