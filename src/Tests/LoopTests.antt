-- ===== src/Tests/LoopTests.antt =====
-- Instances of the theorems on the event loop and on the timers of the chat.
use kuro_net.Logger.Clock.{current_time}
use kuro_net.Prelude.{
  ◌+◌, ◌≡◌, refl, false, true, List, [], ◌∷◌, ◌++◌, arith, nat_eq, list_eq, list_beq, length, some,
}
use kuro_net.Platform.{success}
use kuro_net.Exec.{ok, pure}
use kuro_net.World.{World, Pending, accepting, waiting, view}
use kuro_net.Chat
use kuro_net.Chat.Restart.{count_timers, restart_twice}
use kuro_net.Server.{start, stop, on_accept, on_client_connected}
use kuro_net.Process.{happens, accepted}
use kuro_net.Process.Silence.{Reach-prints}
use kuro_net.Commands.Handler.{round}
use kuro_net.Process.Loop.{Reach, here, later, runs, is_called, accepts, stops_server, without}
use kuro_net.Process.Loop.Accepts.{count_accepts, Reach-accepts}
use kuro_net.Process.Loop.Owners.{count_operations, count_clients}
use kuro_net.Process.Loop.Owners.Changes.{IsOwned}
use kuro_net.Process.Loop.Owners.Runs.{Reach-IsOwned}
use kuro_net.Text.{Bytes, codes}
use kuro_net.Prelude.Map.{lookup, IsUnique}
use kuro_net.Logger.{Logger, Level}
use kuro_net.Logger.Held.{held_lines}
use kuro_net.Logger
use kuro_net.Session.{access_wait_clients}
use kuro_net.Session.Walk.Filter.{
  IsApart, idle_entries, with_waits, access_wait_clients-idle_entries,
}
use kuro_net.Tests.Sample.{sample, world, client}

abbrev started : World sample
started = (start world).1

-- The socket of the first accept.
first : started.pending ≡ accepting 5 ∷ []
unfolding start
first = refl

-- One accept completes, and then the server is stopped.
abbrev connected : World sample
connected = happens (accepted success 5) (without [] [] started)

abbrev stopped : World sample
stopped = happens kuro_net.Process.server_stops connected

reach : Reach started stopped
reach = later (later here (runs [] [] first (accepts 5 success) refl)) (is_called stops_server refl)

started_ok : (start world).0 ≡ ok tt
unfolding start
started_ok = refl

Reach-accepts_example : count_accepts stopped.pending ≡ count_accepts world.pending + 1
Reach-accepts_example = Reach-accepts world stopped started_ok reach

restart_twice_example :
    (count_timers
        (Chat.start (Chat.stop (Chat.start (record world { chat_started = false })).1).1).1.pending
      ≡ count_timers world.pending + 2)
    × ((before behind : List Pending) (u : World sample)
        → u.chat_started ≡ true
        → u.pending ≡ before ++ waiting ∷ behind
        → count_timers (Chat.work (record u { pending = before ++ behind })).1.pending
          ≡ count_timers u.pending)
restart_twice_example = restart_twice (record world { chat_started = false }) refl

world-IsOwned : IsOwned (view world)
unfolding count_operations count_clients
world-IsOwned = record { single = λ s. ground arith; given = λ s le. ground arith }

Reach-IsOwned_example : IsOwned (view stopped)
Reach-IsOwned_example = Reach-IsOwned world stopped world-IsOwned reach

world-IsUnique : IsUnique world.manager.wait_clients
unfolding list_beq lookup
world-IsUnique = (refl, (refl, (refl, tt)))

world-IsApart : IsApart world.manager.wait_clients
world-IsApart = omega arith

access_wait_clients-idle_entries_example :
    (v : World sample) × (access_wait_clients pure world
      ≡ pure (idle_entries sample world.sockets world.manager.wait_clients) v)
    × (view v
        ≡ with_waits (idle_entries sample world.sockets world.manager.wait_clients) (view world))
access_wait_clients-idle_entries_example =
    access_wait_clients-idle_entries pure world world-IsUnique world-IsApart
      (refl, (refl, (refl, tt)))

-- Of the three clients that wait, one talks and one has a broken socket.
idle_run :
    idle_entries sample world.sockets world.manager.wait_clients
    ≡ (codes "w", client (codes "w") 4) ∷ []
unfolding idle_entries
idle_run = refl

-- The operator has pressed `!`, with a line held back, and an accept completes while the line is typed.
abbrev typing : World sample
typing = record started {
  logger = record Logger.initial { stop_flag = true; log_when_stopped = codes "held" ∷ [] };
}

abbrev typed : World sample
typed = happens (accepted success 5) (without [] [] typing)

Reach-prints_example :
    (typed.logger.out ≡ [])
    × (typed.logger.stop_flag ≡ true)
    × (entries : List (Level × Bytes)) × (typed.logger.readings
        ≡ typing.logger.readings + length entries)
    × (let more = held_lines (current_time sample.clock) typing.logger.readings entries in
        (typed.logger.log_when_stopped ≡ (codes "held" ∷ []) ++ more)
        × ((round (some b'!') (codes "help") typed).1.logger.out
            ≡ [] ++ ((codes "held" ∷ []) ++ more)))
Reach-prints_example =
    Reach-prints typing typed (some b'!') (codes "help") refl
      (later here (runs [] [] first (accepts 5 success) refl))

-- The accept is logged behind the line that was held back.
typed-length : length typed.logger.log_when_stopped ≡ 2
unfolding happens on_accept start on_client_connected Logger.log
typed-length = refl
