-- ===== src/Process.antt =====
-- The process as a whole: what can happen in it, one event after the other. The event loop runs the
-- handlers of src/net/TCPServer.cpp and src/net/Chat/Chat.cpp; the thread of the terminal runs the
-- commands of src/core/commands. A handler that throws ends its event.
pub mod Keeps
pub mod Loop
pub mod Silence
pub mod Safe
pub mod Blind
pub mod Invariant
use kuro_net.Prelude.{ℕ, List, [], ◌∷◌}
use kuro_net.Text.{Bytes}
use kuro_net.Platform.{Platform, ErrorCode}
use kuro_net.Exec.{Exec}
use kuro_net.World.{World, Client}
use kuro_net.Server.{on_accept, on_request}
use kuro_net.Server
use kuro_net.Chat.{on_read, on_written, work, start, stop}
use kuro_net.Commands.Token
use kuro_net.Commands.Clients

pub data Event : Type 0 where
  -- The handlers, with what Boost.Asio hands to them.
  accepted : ErrorCode → ℕ → Event
  requested : ErrorCode → ℕ → Bytes → ℕ → Event
  read : ErrorCode → Bytes → Client → Bytes → Event
  written : ErrorCode → Client → Event
  timed starts stops : Event
  -- The server is started and stopped by the program that owns it.
  server_starts server_stops : Event
  -- The commands, with the parts of the line.
  token_commands clients_commands : List Bytes → Event

module _ {p : Platform} where
  -- What runs when an event happens.
  abbrev pub handle : Event → Exec (World p) (Unit {0})
  handle (accepted ec socket) = on_accept ec socket
  handle (requested ec socket buffer n) = on_request ec socket buffer n
  handle (read ec id client buffer) = on_read ec id client buffer
  handle (written ec client) = on_written ec client
  handle timed = work
  handle starts = start
  handle stops = stop
  handle server_starts = Server.start
  handle server_stops = Server.stop
  handle (token_commands cmd) = Token.execute cmd
  handle (clients_commands cmd) = Clients.execute cmd

  -- The process behind an event, whether the handler returned or threw.
  unfoldable pub happens : Event → World p → World p
  happens e w = (handle e w).1

  unfoldable pub history : List Event → World p → World p
  unfolding happens
  history [] w = w
  history (e ∷ es) w = history es (happens e w)
