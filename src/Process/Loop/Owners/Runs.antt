-- ===== src/Process/Loop/Owners/Runs.antt =====
-- The owners of sockets over runs of the event loop.
use mathlib.Core.Path.{subst}
use kuro_net.Prelude.{◌≡◌, sym, inl, inr, List, ◌∷◌, ◌++◌, nat_eq, list_eq}
use kuro_net.Platform.{Platform}
use kuro_net.World.{World, Pending, accepting, requesting, reading, writing, waiting, view}
use kuro_net.Session.Keeps.{view-Stands}
use kuro_net.Server.{start}
use kuro_net.Server.Keeps.{Turns-on_request, on_accept_lem, start_lem}
use kuro_net.Process.{Event, read, written, timed, happens}
use kuro_net.Process.Keeps.{happens-inner}
use kuro_net.Process.Loop.{
  Completes, accepts, requests, reads, writes, waits, Calls-IsInner, without, Step, runs, is_called,
  Reach, here, later,
}
use kuro_net.Process.Loop.Owners.{held_by}
use kuro_net.Process.Loop.Owners.Changes.{
  IsOwned, IsOwned-Closed, IsFreed-Arrives, taken-IsFreed, taken-IsOwned, accepting-IsOwned,
  requesting-IsOwned, weight_self,
}

module _ {p : Platform} where
  runs-IsOwned :
      (before behind : List Pending) {op : Pending} {e : Event} (w : World p)
      → Completes op e
      → w.pending ≡ before ++ op ∷ behind
      → IsOwned (view w)
      → IsOwned (view (happens e (without before behind w)))
  unfolding happens held_by
  runs-IsOwned before behind w (accepts socket ec) found h =
      let freed =
        taken-IsFreed before behind (accepting socket) (view w) found h socket
          (weight_self socket) in
      subst IsOwned (sym ((on_accept_lem ec socket (without before behind w)).1))
        (accepting-IsOwned _ (requesting-IsOwned socket _ freed))
  runs-IsOwned before behind w (requests socket ec buffer k) found h =
      (Turns-on_request socket ec buffer k (IsFreed-Arrives socket)).at (without before behind w) (
        taken-IsFreed before behind (requesting socket) (view w) found h socket
          (weight_self socket))
  runs-IsOwned before behind w (reads id c ec buffer) found h =
      happens-inner IsOwned-Closed (read ec id c buffer) (without before behind w) tt
        (taken-IsOwned before behind (reading id c) (view w) found h)
  runs-IsOwned before behind w (writes c text ec) found h =
      happens-inner IsOwned-Closed (written ec c) (without before behind w) tt
        (taken-IsOwned before behind (writing c text) (view w) found h)
  runs-IsOwned before behind w waits found h =
      happens-inner IsOwned-Closed timed (without before behind w) tt
        (taken-IsOwned before behind waiting (view w) found h)

  Step-IsOwned : {u v : World p} → Step u v → IsOwned (view u) → IsOwned (view v)
  Step-IsOwned {u} {v} (runs before behind found completes same) h =
      subst (λ t. IsOwned (view t)) (sym same) (runs-IsOwned before behind u completes found h)
  Step-IsOwned {u} {v} (is_called calls same) h =
      subst (λ t. IsOwned (view t)) (sym same)
        (happens-inner IsOwned-Closed _ u (Calls-IsInner calls) h)

  pub loop-IsOwned : {w u : World p} → Reach w u → IsOwned (view w) → IsOwned (view u)
  loop-IsOwned here h = h
  loop-IsOwned (later r s) h = Step-IsOwned s (loop-IsOwned r h)

  -- Once the server is started in a process in which no socket has two owners: over every run of the
  -- event loop and of the other threads, a socket has one owner at most among the accepts and requests
  -- that are started, the clients that wait, and the approved clients; and the number of the next
  -- socket is new. So no two clients share a socket.
  pub Reach-IsOwned : (w u : World p) → IsOwned (view w) → Reach (start w).1 u → IsOwned (view u)
  Reach-IsOwned w u h reach = loop-IsOwned reach (elim (start_lem w) [
    | inl (done, e) ↦ subst IsOwned (sym e) (accepting-IsOwned (view w) h)
    | inr (failed, e) ↦ subst IsOwned (sym e) h
  ])
