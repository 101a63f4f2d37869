-- ===== src/Session/Silence.antt =====
-- While the log is stopped, the operations of the session print nothing.
use kuro_net.Logger.Clock.{current_time}
use mathlib.Core.Path.{subst}
use kuro_net.Prelude.{sym}
use kuro_net.Logger.{Logger}
use kuro_net.Logger.Held.{Holds, Holds-trans, log-Holds}
use kuro_net.Platform.{Platform}
use kuro_net.World.{World}
use kuro_net.Session.{create_token}
use kuro_net.Session.Keeps.{Stands}
use kuro_net.Session.Closed.{Closed, Anyone}

abbrev pub logger_of : {p : Platform} → World p → Logger
logger_of w = w.logger

instance pub Holds-Stands :
    {p : Platform} {lg : Logger} → Stands {p = p} logger_of (Holds (current_time p.clock) lg)
Holds-Stands {p = p} {lg = lg} = record {
  logs = λ level text w h.
      Holds-trans h (log-Holds (current_time p.clock) level text w.logger h.stopped);
  rests = λ w u same seen still h. subst (Holds (current_time p.clock) lg) (sym same) h;
}

pub Holds-Closed :
    {p : Platform} (lg : Logger) → Closed {p = p} Anyone logger_of (Holds (current_time p.clock) lg)
unfolding create_token
Holds-Closed lg = record {
  forgets_waiting = λ id w h. h;
  forgets_client = λ id w h. h;
  puts_token = λ token w h. h;
  admits = λ id token c w allowed active waiting h. h;
  reads = λ id c w h. h;
  writes = λ c text w h. h;
  waits = λ w h. h;
}
