-- ===== src/Process/Safe.antt =====
-- Where an event has undefined behaviour.
use kuro_net.Prelude.{◌≡◌, ◌↔◌, ◌⊎◌, inl, inr, refl, List}
use kuro_net.Text.{Bytes}
use kuro_net.Platform.{Platform}
use kuro_net.Exec.{undefined}
use kuro_net.World.{World}
use kuro_net.Server.Safe as ServerSafe
use kuro_net.Chat.Safe.{Safe-on_read, Safe-on_written, Safe-work, Safe-start, Safe-stop}
use kuro_net.Commands.Token.Safe as TokenSafe
use kuro_net.Commands.Clients.Safe as ClientsSafe
use kuro_net.Process.{
  Event, accepted, requested, read, written, timed, starts, stops, server_starts, server_stops,
  token_commands, clients_commands, handle,
}

-- The event is the command `token create -temp` with a time that overflows.
abbrev pub IsOverflowEvent : Event → Type 0
IsOverflowEvent e = (cmd : List Bytes) × (e ≡ token_commands cmd) × TokenSafe.IsOverflow cmd

-- The event is the command `client approve` of an id that waits, with an active token, and the library
-- does not let the iterator of an extracted element be read.
abbrev pub IsExtractEvent : {p : Platform} → Event → World p → Type 0
IsExtractEvent e w =
    (cmd : List Bytes) × (e ≡ clients_commands cmd) × ClientsSafe.ReadsExtracted cmd w

module _ {p : Platform} where
  handle-safe :
      (e : Event) (w : World p)
      → (handle e w).0 ≡ undefined
      → IsOverflowEvent e ⊎ IsExtractEvent e w
  handle-safe (accepted ec socket) w = (ServerSafe.Safe-on_accept ec socket).at w
  handle-safe (requested ec socket buffer n) w =
      (ServerSafe.Safe-on_request ec socket buffer n).at w
  handle-safe (read ec id client buffer) w = (Safe-on_read ec id client buffer).at w
  handle-safe (written ec client) w = (Safe-on_written ec client).at w
  handle-safe timed w = Safe-work.at w
  handle-safe starts w = Safe-start.at w
  handle-safe stops w = Safe-stop.at w
  handle-safe server_starts w = ServerSafe.Safe-start.at w
  handle-safe server_stops w = ServerSafe.Safe-stop.at w
  handle-safe (token_commands cmd) w = λ e. inl (cmd, refl, (TokenSafe.Safe-execute cmd).at w e)
  handle-safe (clients_commands cmd) w = λ e. inr (cmd, refl, ClientsSafe.execute-safe cmd w e)

  pub handle_undefined_iff :
      (e : Event) (w : World p)
      → ((handle e w).0 ≡ undefined) ↔ (IsOverflowEvent e ⊎ IsExtractEvent e w)
  handle_undefined_iff e w = (handle-safe e w, back)
    where
      back : IsOverflowEvent e ⊎ IsExtractEvent e w → (handle e w).0 ≡ undefined
      back (inl (cmd, is, over)) = rw is (TokenSafe.overflow-execute cmd w over)
      back (inr (cmd, is, reads)) = rw is (ClientsSafe.extracted-execute cmd w reads)
