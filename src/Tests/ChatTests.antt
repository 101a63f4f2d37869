-- ===== src/Tests/ChatTests.antt =====
-- Instances of the theorems on the chat.
use kuro_net.Logger.Clock.{current_time}
use kuro_net.Prelude.{
  ◌≡◌, ◌≢◌, if◌then◌else◌, ◌==◌, ◌+◌, ◌*◌, refl, none, ◌++◌, nat_eq, list_eq, length,
}
use kuro_net.Prelude.Map.{lookup}
use kuro_net.Text.{Bytes, codes}
use kuro_net.Logger.{info}
use kuro_net.Logger
use kuro_net.Platform.{ErrorCode, broken_pipe, success}
use kuro_net.Exec.{ok}
use kuro_net.Chat.{do_send, on_written}
use kuro_net.Chat.Delivery.{deliveries, do_send_lem, on_written_lem}
use kuro_net.Chat.Rounds.{count_reads, rounds, rounds-reads}
use kuro_net.Tests.Sample.{sample, client, manager, world}

do_send_lem_example : do_send (codes "c") (codes "hi") world ≡ (
  ok tt,
  record world {
    logger =
        Logger.log
          (current_time sample.clock)
          info
          (codes "Client " ++ (codes "c" ++ (codes " write: \n\t" ++ codes "hi")))
          world.logger;
    pending = world.pending ++ deliveries world (codes "c") (codes "hi") manager.clients;
  },
)
do_send_lem_example = do_send_lem (codes "c") (codes "hi") world

rounds-reads_example :
    count_reads (rounds 3 world).pending ≡ count_reads world.pending + 3 * length manager.clients
rounds-reads_example = rounds-reads 3 world refl

on_written_lem_example :
    let w = (on_written broken_pipe (client (codes "c") 2) world).1 in
    ((on_written broken_pipe (client (codes "c") 2) world).0 ≡ ok tt)
    × (◌≡◌ {A = ErrorCode} broken_pipe success → w ≡ world)
    × (◌≢◌ {A = ErrorCode} broken_pipe success
        → (j : Bytes)
        → lookup j w.manager.clients
          ≡ (if codes "guest" == j then none else lookup j manager.clients))
    × (w.manager.wait_clients ≡ manager.wait_clients)
on_written_lem_example = on_written_lem broken_pipe (client (codes "c") 2) world
