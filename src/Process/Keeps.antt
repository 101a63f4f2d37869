-- ===== src/Process/Keeps.antt =====
-- The events of a process that bring no socket keep what stands the changes of the session.
use kuro_net.Text.{Bytes}
use kuro_net.Platform.{Platform}
use kuro_net.World.{World}
use kuro_net.Session.Keeps.{Stands}
use kuro_net.Session.Closed.{Closed}
use kuro_net.Server.Keeps
use kuro_net.Chat.Keeps.{Keeps-on_read, Keeps-on_written, Keeps-work, Keeps-start, Keeps-stop}
use kuro_net.Commands.Token.Keeps as TokenKeeps
use kuro_net.Commands.Clients.Keeps as ClientsKeeps
use kuro_net.Commands.Clients.Keeps.{IsPermitted}
use kuro_net.Process.{
  Event, accepted, requested, read, written, timed, starts, stops, server_starts, server_stops,
  token_commands, clients_commands, happens,
}

-- No accept, no request, no start of the server, and no approval but of what is allowed.
abbrev pub IsInner : (Bytes → Bytes → Type 0) → Event → Type 0
IsInner allows (accepted ec socket) = ⊥
IsInner allows (requested ec socket buffer n) = ⊥
IsInner allows server_starts = ⊥
IsInner allows (clients_commands cmd) = IsPermitted allows cmd
IsInner allows _ = Unit

module _ {p : Platform} {S : Type 0} {look : World p → S} {P : S → Type 0}
    {allows : Bytes → Bytes → Type 0} ⦃stands : Stands look P⦄ (closed : Closed allows look P) where
  pub happens-inner :
      (e : Event) (w : World p) → IsInner allows e → P (look w) → P (look (happens e w))
  unfolding happens
  happens-inner (accepted ec socket) w inner h = absurd inner
  happens-inner (requested ec socket buffer n) w inner h = absurd inner
  happens-inner server_starts w inner h = absurd inner
  happens-inner (read ec id client buffer) w inner h =
      (Keeps-on_read closed ec id client buffer).at w h
  happens-inner (written ec client) w inner h = (Keeps-on_written closed ec client).at w h
  happens-inner timed w inner h = (Keeps-work closed).at w h
  happens-inner starts w inner h = (Keeps-start closed).at w h
  happens-inner stops w inner h = (Keeps-stop closed).at w h
  happens-inner server_stops w inner h = (Keeps.Keeps-stop {look = look} {P = P}).at w h
  happens-inner (token_commands cmd) w inner h = (TokenKeeps.Keeps-execute closed cmd).at w h
  happens-inner (clients_commands cmd) w inner h =
      (ClientsKeeps.Keeps-execute closed cmd inner).at w h
