-- ===== src/Tests/OrderTests.antt =====
-- A run of the process with its maps in another order.
use mathlib.Core.List.Permᴰ
use kuro_net.Prelude.{◌≡◌, refl, false, All, List, [], ◌∷◌, nat_eq, list_eq, list_beq}
use kuro_net.Prelude.Map.{lookup, emplace}
use kuro_net.Text.{codes}
use kuro_net.Platform.{success, eof}
use kuro_net.World.{World, Pending, reading, waiting}
use kuro_net.World.Reorder.{Order, reordered}
use kuro_net.Chat.{start, work, do_read}
use kuro_net.Process.{Event, starts, read, timed, clients_commands, happens, history}
use kuro_net.Process.Blind.{IsStill, outcomes, history-reordered}
use kuro_net.Process.Loop.{Reach, here, later, runs, is_called, starts_chat, reads, without}
use kuro_net.Process.Loop.Order.{Reach-reordered}
use kuro_net.Tests.Sample.{sample, client, world}
use kuro_net.Tests.SessionTests.{manager-IsValid}

-- The two clients the other way round, and the first two of those that wait.
abbrev other_order : Order world
other_order = record {
  clients = record {
    entries = (codes "d", client (codes "d") 3) ∷ (codes "c", client (codes "c") 2) ∷ [];
    perm = Permᴰ.swap refl refl;
    unique = manager-IsValid.clients_unique;
  };
  waits = record {
    entries =
        (codes "w", client (codes "w") 4)
        ∷ (codes "t", client (codes "t") 1)
        ∷ (codes "b", client (codes "b") 0)
        ∷ [];
    perm = Permᴰ.swap refl refl;
    unique = manager-IsValid.waiting_unique;
  };
  pending = [];
  pending_perm = Permᴰ.nil;
}

abbrev events : List Event
events =
    clients_commands (codes "client" ∷ codes "approve" ∷ codes "w" ∷ codes "perm.x" ∷ [])
    ∷ timed
    ∷ read success (codes "c") (client (codes "c") 2) (codes "hello\n")
    ∷ read eof (codes "c") (client (codes "c") 2) []
    ∷ []

events-IsStill : All IsStill events
unfolding lookup emplace list_beq
events-IsStill = ((λ walk. walk), (tt, (tt, (tt, tt))))

history-reordered_example :
    (outcomes events (reordered world other_order) ≡ outcomes events world)
    × ((s : Order (history events world)) × (history events (reordered world other_order)
          ≡ reordered (history events world) s))
history-reordered_example = history-reordered events world other_order events-IsStill

-- The chat starts, and the line of the second client is read.
abbrev quiet : World sample
quiet = record world { chat_started = false }

abbrev chatting : World sample
chatting = happens starts quiet

abbrev first_read : Pending
first_read = reading (codes "c") (client (codes "c") 2)

abbrev told : World sample
told =
    happens (read success (codes "d") (client (codes "d") 3) (codes "hello\n"))
      (without (first_read ∷ []) (waiting ∷ []) chatting)

started_reads :
    chatting.pending ≡ first_read ∷ reading (codes "d") (client (codes "d") 3) ∷ waiting ∷ []
unfolding happens start work do_read
started_reads = refl

abbrev talk : Reach quiet told
talk = later (later here (is_called starts_chat refl)) (
    runs (first_read ∷ []) (waiting ∷ []) started_reads
      (reads (codes "d") (client (codes "d") 3) success (codes "hello\n")) refl)

Reach-reordered_example : (s : Order told) × Reach (reordered quiet other_order) (reordered told s)
Reach-reordered_example = Reach-reordered talk ((tt, tt), tt) other_order
