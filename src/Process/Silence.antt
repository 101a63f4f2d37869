-- ===== src/Process/Silence.antt =====
-- While the operator types behind the key `!`, the log is stopped, and the other threads go on.
use kuro_net.Prelude.{◌≡◌, true, ap, ◌∙◌, ℕ, ◌+◌, Option, List, ◌++◌, length}
use kuro_net.Text.{Bytes}
use kuro_net.Logger.{Level, Logger}
use kuro_net.Logger.Clock.{current_time}
use kuro_net.Logger.Held.{Holds, Holds-refl, held_lines}
use kuro_net.Platform.{Platform}
use kuro_net.World.{World}
use kuro_net.Session.Silence.{Holds-Stands, Holds-Closed}
use kuro_net.Server.Silence.{Keeps-on_accept, Keeps-on_request, Keeps-start}
use kuro_net.Commands.Handler.{round}
use kuro_net.Commands.Handler.Silence.{round_prints}
use kuro_net.Process.{
  Event, accepted, requested, read, written, timed, starts, stops, server_starts, server_stops,
  token_commands, clients_commands, happens,
}
use kuro_net.Process.Keeps.{happens-inner}
use kuro_net.Process.Loop.{Step, runs, is_called, Reach, here, later, without}

module _ {p : Platform} (lg : Logger) where
  happens-Holds :
      (e : Event) (w : World p)
      → Holds (current_time p.clock) lg w.logger
      → Holds (current_time p.clock) lg (happens e w).logger
  unfolding happens
  happens-Holds (accepted ec socket) w h = (Keeps-on_accept lg ec socket).at w h
  happens-Holds (requested ec socket buffer n) w h = (Keeps-on_request lg ec socket buffer n).at w h
  happens-Holds server_starts w h = (Keeps-start lg).at w h
  happens-Holds (read ec id client buffer) w h =
      happens-inner (Holds-Closed lg) (read ec id client buffer) w tt h
  happens-Holds (written ec client) w h = happens-inner (Holds-Closed lg) (written ec client) w tt h
  happens-Holds timed w h = happens-inner (Holds-Closed lg) timed w tt h
  happens-Holds starts w h = happens-inner (Holds-Closed lg) starts w tt h
  happens-Holds stops w h = happens-inner (Holds-Closed lg) stops w tt h
  happens-Holds server_stops w h = happens-inner (Holds-Closed lg) server_stops w tt h
  happens-Holds (token_commands cmd) w h =
      happens-inner (Holds-Closed lg) (token_commands cmd) w tt h
  happens-Holds (clients_commands cmd) w h =
      happens-inner (Holds-Closed lg) (clients_commands cmd) w (λ e. tt) h

  Step-Holds :
      (w u : World p)
      → Step w u
      → Holds (current_time p.clock) lg w.logger
      → Holds (current_time p.clock) lg u.logger
  Step-Holds w u (runs before behind {op} {e} found completes same) h =
      rw same (happens-Holds e (without before behind w) h)
  Step-Holds w u (is_called {e} calls same) h = rw same (happens-Holds e w h)

  Reach-Holds :
      (w u : World p)
      → Reach w u
      → Holds (current_time p.clock) lg w.logger
      → Holds (current_time p.clock) lg u.logger
  Reach-Holds w u here h = h
  Reach-Holds w u (later {u = m} reach step) h = Step-Holds m u step (Reach-Holds w m reach h)

-- From a process with the log stopped, over every run of the event loop and of the calls of the other
-- threads, one after the other: nothing is printed, the log stays stopped, and it holds behind what it
-- held one line for each reading of the clock since, in order, each made of that reading, a level and a
-- message. The next round of the command loop, whatever its key and its line are, prints all of them,
-- and nothing else.
pub Reach-prints :
    {p : Platform} (w u : World p) (key : Option ℕ) (line : Bytes)
    → w.logger.stop_flag ≡ true
    → Reach w u
    → (u.logger.out ≡ w.logger.out)
      × (u.logger.stop_flag ≡ true)
      × (entries : List (Level × Bytes)) × (u.logger.readings ≡ w.logger.readings + length entries)
      × (let more = held_lines (current_time p.clock) w.logger.readings entries in
          (u.logger.log_when_stopped ≡ w.logger.log_when_stopped ++ more)
          × ((round key line u).1.logger.out ≡ w.logger.out ++ (w.logger.log_when_stopped ++ more)))
Reach-prints {p = p} w u key line stopped reach =
    let h = Reach-Holds w.logger w u reach (Holds-refl (current_time p.clock) w.logger stopped) in
    (
      h.printed,
      h.stopped,
      h.entries,
      h.read,
      (
        h.held,
        (round_prints key line u).0
            ∙ ap (λ l. l ++ u.logger.log_when_stopped) h.printed
            ∙ ap (λ l. w.logger.out ++ l) h.held,
      ),
    )
