-- ===== src/Session/Turns.antt =====
-- From one property of the view to another, through a chain of steps.
use kuro_net.Prelude.{Bool, true, false, if◌then◌else◌}
use kuro_net.Platform.{Platform}
use kuro_net.Exec.{Exec, Outcome, ok, throw, undefined, after, ◌>>=◌}
use kuro_net.World.{World, View, view}
use kuro_net.Session.Keeps.{Keeps}

-- From `Q` before to `P` behind, whether `m` returns or throws.
pub record Turns {p : Platform} {A : Type 0} (Q P : View → Type 0) (m : Exec (World p) A)
    : Type 0 where
  pub at : (w : World p) → Q (view w) → P (view (m w).1)

module _ {p : Platform} {Q P : View → Type 0} (leaves : (v : View) → Q v → P v) where
  pub Turns-Keeps : {A : Type 0} (m : Exec (World p) A) → Keeps view Q m → Turns Q P m
  Turns-Keeps m km = record { at = λ w h. leaves (view (m w).1) (km.at w h) }

  after-turns :
      {A B : Type 0} (r : Outcome A) (v : World p) (f : A → Exec (World p) B)
      → Q (view v)
      → ((a : A) → Turns Q P (f a))
      → P (view (after (r, v) f).1)
  after-turns (ok a) v f h kf = (kf a).at v h
  after-turns (throw e) v f h kf = leaves (view v) h
  after-turns undefined v f h kf = leaves (view v) h

  pub Turns-bind :
      {A B : Type 0} (m : Exec (World p) A) (f : A → Exec (World p) B)
      → Keeps view Q m
      → ((a : A) → Turns Q P (f a))
      → Turns Q P (m >>= f)
  Turns-bind m f km kf = record { at = λ w h. after-turns ((m w).0) ((m w).1) f (km.at w h) kf }

pub Turns-if :
    {p : Platform} {Q P : View → Type 0} {A : Type 0} (b : Bool) (m n : Exec (World p) A)
    → Turns Q P m
    → Turns Q P n
    → Turns Q P (if b then m else n)
Turns-if true m n km kn = km
Turns-if false m n km kn = kn
