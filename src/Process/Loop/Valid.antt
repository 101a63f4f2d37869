-- ===== src/Process/Loop/Valid.antt =====
-- The maps of the session over runs of the event loop.
use mathlib.Core.Path.{subst}
use kuro_net.Prelude.{sym}
use kuro_net.Platform.{Platform}
use kuro_net.World.{World}
use kuro_net.Session.Valid.{IsValid}
use kuro_net.Server.{start}
use kuro_net.Process.{happens, server_starts}
use kuro_net.Process.Invariant.{happens-IsValid}
use kuro_net.Process.Loop.{Step, runs, is_called, Reach, here, later, without}

module _ {p : Platform} where
  Step-IsValid : {u v : World p} → Step u v → IsValid u.manager → IsValid v.manager
  Step-IsValid {u} {v} (runs before behind {op} {e} found completes same) h =
      subst (λ t. IsValid t.manager) (sym same) (happens-IsValid e (without before behind u) h)
  Step-IsValid {u} {v} (is_called {e} calls same) h =
      subst (λ t. IsValid t.manager) (sym same) (happens-IsValid e u h)

  pub Reach-IsValid : {w u : World p} → Reach w u → IsValid w.manager → IsValid u.manager
  Reach-IsValid here h = h
  Reach-IsValid (later r s) h = Step-IsValid s (Reach-IsValid r h)

  pub start-IsValid : (w : World p) → IsValid w.manager → IsValid (start w).1.manager
  unfolding happens
  start-IsValid w h = happens-IsValid server_starts w h
