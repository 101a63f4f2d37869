-- ===== src/Process/Loop/Owners.antt =====
-- Who holds a socket: an accept or a request that is started, a client that waits, or a client that is
-- approved. The reads and writes of the chat share the socket of their client and do not count.
pub mod Changes
pub mod Runs
pub mod Waits
use mathlib.Core.Path.{subst}
use kuro_net.Prelude.{
  ℕ, suc, ◌+◌, ◌≤◌, ◌<◌, ◌≡◌, ◌≢◌, ◌⊎◌, refl, sym, ap, ◌∙◌, inl, inr, none, some, List, [], ◌∷◌,
  ◌++◌, Bool-cases, nat_eq, list_eq, ◌==◌, if◌then◌else◌, Option-cases, arith, true, false,
  list_beq_iff,
}
use kuro_net.Prelude.Map.{lookup, erase, emplace}
use kuro_net.Text.{Bytes}
use kuro_net.Platform.{Platform}
use kuro_net.World.{
  World, Client, Pending, accepting, requesting, reading, writing, waiting, View, view,
  put_operation,
}
use native.Mathlib.Decide.{dec_lt}
use kuro_net.Server.{start}
use kuro_net.Server.Keeps.{Turns-on_request, on_accept_lem, start_lem, accepting_view}
use kuro_net.Process.{Event, read, written, timed, happens}
use kuro_net.Process.Keeps.{happens-inner}
use kuro_net.Process.Loop.{
  Completes, accepts, requests, reads, writes, waits, Calls-IsInner, without, Step, runs, is_called,
  Reach, here, later,
}
use kuro_net.Session.Keeps.{forget_waiting, forget_client, put_waiting, put_client, put_token}
use kuro_net.Session.Closed.{Closed, Arrives}

abbrev pub weight : ℕ → ℕ → ℕ
weight s k = if s == k then 1 else 0

-- The operations that hold the socket.
pub held_by : ℕ → Pending → ℕ
held_by s (accepting k) = weight s k
held_by s (requesting k) = weight s k
held_by s (reading id c) = 0
held_by s (writing c text) = 0
held_by s waiting = 0

unfoldable pub count_operations : ℕ → List Pending → ℕ
count_operations s [] = 0
count_operations s (op ∷ ops) = held_by s op + count_operations s ops

unfoldable pub count_clients : ℕ → List (Bytes × Client) → ℕ
count_clients s [] = 0
count_clients s ((id, c) ∷ m) = weight s c.socket + count_clients s m

abbrev pub owners : ℕ → View → ℕ
owners s v =
    count_operations s v.pending
    + (count_clients s v.manager.wait_clients + count_clients s v.manager.clients)

-- Laws of the counts.
count_operations-append :
    (s : ℕ) (xs ys : List Pending)
    → count_operations s (xs ++ ys) ≡ count_operations s xs + count_operations s ys
unfolding count_operations
count_operations-append s [] ys = omega arith
count_operations-append s (op ∷ xs) ys = omega (arith, count_operations-append s xs ys)

count_operations-one : (s : ℕ) (op : Pending) → count_operations s (op ∷ []) ≡ held_by s op
unfolding count_operations
count_operations-one s op = omega arith

count_operations-middle :
    (s : ℕ) (before behind : List Pending) (op : Pending)
    → count_operations s (before ++ op ∷ behind)
      ≡ count_operations s (before ++ behind) + held_by s op
unfolding count_operations
count_operations-middle s before behind op =
    omega (
      arith,
      count_operations-append s before (op ∷ behind),
      count_operations-append s before behind,
    )

count_clients-erase :
    (s : ℕ) (id : Bytes) (m : List (Bytes × Client))
    → count_clients s (erase id m) ≤ count_clients s m
unfolding count_clients erase
count_clients-erase s id [] = omega arith
count_clients-erase s id ((j, c) ∷ m) = elim (Bool-cases (j == id)) [
  | inl e ↦ rw e (omega (arith, count_clients-erase s id m))
  | inr e ↦ rw e (omega (arith, count_clients-erase s id m))
]

-- The entry that is found goes.
count_clients-erase_found :
    (s : ℕ) (id : Bytes) (c : Client) (m : List (Bytes × Client))
    → lookup id m ≡ some c
    → count_clients s (erase id m) + weight s c.socket ≤ count_clients s m
unfolding count_clients erase lookup
count_clients-erase_found s id c [] h = cc h
count_clients-erase_found s id c ((j, d) ∷ m) h = elim (Bool-cases (j == id)) [
  | inl e ↦
      let same : d ≡ c = cc (rw e at h) in
      rw e (omega (arith, count_clients-erase s id m, ap (λ (x : Client). weight s x.socket) same))
  | inr e ↦ rw e (omega (arith, count_clients-erase_found s id c m (rw e at h)))
]

count_clients-emplace :
    (s : ℕ) (id : Bytes) (c : Client) (m : List (Bytes × Client))
    → count_clients s (emplace id c m) ≤ count_clients s m + weight s c.socket
unfolding count_clients emplace
count_clients-emplace s id c m = elim (Option-cases (lookup id m)) [
  | inl e ↦ rw (e, emplace) (omega arith)
  | inr (old, e) ↦ rw (e, emplace) (omega arith)
]
