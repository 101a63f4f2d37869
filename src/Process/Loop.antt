-- ===== src/Process/Loop.antt =====
-- `io_context::run` beside the thread of the terminal: in a step, one of the operations that are
-- started completes and its handler runs, or another thread calls in. Which operation comes first, and
-- with what outcome, is open.
pub mod Admission
pub mod Accepts
pub mod Owners
pub mod Valid
pub mod Order
use kuro_net.Prelude.{ℕ, ◌≡◌, List, ◌∷◌, ◌++◌}
use kuro_net.Text.{Bytes}
use kuro_net.Platform.{Platform, ErrorCode}
use kuro_net.World.{World, Client, Pending, accepting, requesting, reading, writing, waiting}
use kuro_net.Process.{
  Event, accepted, requested, read, written, timed, starts, stops, server_stops, token_commands,
  clients_commands, happens,
}
use kuro_net.Session.Closed.{Anyone}
use kuro_net.Process.Keeps.{IsInner}

-- What the completion of an operation makes happen.
pub data Completes : Pending → Event → Type 0 where
  accepts : (socket : ℕ) (ec : ErrorCode) → Completes (accepting socket) (accepted ec socket)
  requests :
      (socket : ℕ) (ec : ErrorCode) (buffer : Bytes) (n : ℕ)
      → Completes (requesting socket) (requested ec socket buffer n)
  reads :
      (id : Bytes) (c : Client) (ec : ErrorCode) (buffer : Bytes)
      → Completes (reading id c) (read ec id c buffer)
  writes : (c : Client) (text : Bytes) (ec : ErrorCode) → Completes (writing c text) (written ec c)
  waits : Completes waiting timed

-- What another thread calls, once the server is started.
pub data Calls : Event → Type 0 where
  starts_chat : Calls starts
  stops_chat : Calls stops
  stops_server : Calls server_stops
  gives_token : (cmd : List Bytes) → Calls (token_commands cmd)
  gives_client : (cmd : List Bytes) → Calls (clients_commands cmd)

module _ {p : Platform} where
  -- The process without an operation.
  abbrev pub without : List Pending → List Pending → World p → World p
  without before behind w = record w { pending = before ++ behind }

  pub data Step (w u : World p) : Type 0 where
    runs :
        (before behind : List Pending) {op : Pending} {e : Event}
        → w.pending ≡ before ++ op ∷ behind
        → Completes op e
        → u ≡ happens e (without before behind w)
        → Step w u
    is_called : {e : Event} → Calls e → u ≡ happens e w → Step w u

  pub data Reach (w : World p) : World p → Type 0 where
    here : Reach w w
    later : {u v : World p} → Reach w u → Step u v → Reach w v

-- What another thread calls brings no socket.
pub Calls-IsInner : {e : Event} → Calls e → IsInner Anyone e
Calls-IsInner starts_chat = tt
Calls-IsInner stops_chat = tt
Calls-IsInner stops_server = tt
Calls-IsInner (gives_token cmd) = tt
Calls-IsInner (gives_client cmd) = λ e. tt
