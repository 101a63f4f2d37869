-- ===== src/Process/Blind.antt =====
-- The order in which the maps are walked plays no part in what happens, but in two listings.
use kuro_net.Prelude.{◌≡◌, refl, ap, All, List, [], ◌∷◌}
use kuro_net.Exec.{Outcome}
use kuro_net.Platform.{Platform}
use kuro_net.World.{World}
use kuro_net.World.Reorder.{Blind, Order, reordered}
use kuro_net.Server.Blind as ServerBlind
use kuro_net.Chat.Blind.{Blind-on_read, Blind-on_written, Blind-work, Blind-start, Blind-stop}
use kuro_net.Commands.Token.Blind as TokenBlind
use kuro_net.Commands.Clients.Blind.{IsListing}
use kuro_net.Commands.Clients.Blind as ClientsBlind
use kuro_net.Process.{
  Event, accepted, requested, read, written, timed, starts, stops, server_starts, server_stops,
  token_commands, clients_commands, handle, happens, history,
}

-- The event is no command that lists clients.
abbrev pub IsStill : Event → Type 0
IsStill (clients_commands cmd) = ¬ IsListing cmd
IsStill _ = Unit

module _ {p : Platform} where
  Blind-handle : (e : Event) → IsStill e → Blind {p = p} (handle e)
  Blind-handle (accepted ec socket) still = ServerBlind.Blind-on_accept ec socket
  Blind-handle (requested ec socket buffer n) still =
      ServerBlind.Blind-on_request ec socket buffer n
  Blind-handle (read ec id client buffer) still = Blind-on_read ec id client buffer
  Blind-handle (written ec client) still = Blind-on_written ec client
  Blind-handle timed still = Blind-work
  Blind-handle starts still = Blind-start
  Blind-handle stops still = Blind-stop
  Blind-handle server_starts still = ServerBlind.Blind-start
  Blind-handle server_stops still = ServerBlind.Blind-stop
  Blind-handle (token_commands cmd) still = TokenBlind.Blind-execute cmd
  Blind-handle (clients_commands cmd) still = ClientsBlind.Blind-execute cmd still

  pub happens-reordered :
      (e : Event) (w : World p) (r : Order w)
      → IsStill e
      → (s : Order (happens e w)) × ((handle e (reordered w r)).0 ≡ (handle e w).0)
        × (happens e (reordered w r) ≡ reordered (happens e w) s)
  unfolding happens
  happens-reordered e w r still =
      let (s, same) = (Blind-handle e still).at w r in (s, ap (λ t. t.0) same, ap (λ t. t.1) same)

  -- The outcomes of the handlers, one event after the other.
  pub outcomes : List Event → World p → List (Outcome (Unit {0}))
  outcomes [] w = []
  outcomes (e ∷ es) w = (handle e w).0 ∷ outcomes es (happens e w)

  -- Over a sequence of events in which none is `client waits` or `client list`, the order of the entries
  -- in the two maps plays no part: from the same process with its maps and its started operations in
  -- another order, where ids are unique, every handler has the same outcome, and the process ends in the
  -- same state, up to the order of the maps and of the started operations.
  pub history-reordered :
      (es : List Event) (w : World p) (r : Order w)
      → All IsStill es
      → (outcomes es (reordered w r) ≡ outcomes es w)
        × ((s : Order (history es w)) × (history es (reordered w r) ≡ reordered (history es w) s))
  unfolding history outcomes
  history-reordered [] w r still = (refl, (r, refl))
  history-reordered (e ∷ es) w r still =
      let (s, first, next) = happens-reordered e w r still.0 in
      let (others, rest) = history-reordered es (happens e w) s still.1 in
      (rw (outcomes, first, next) (ap (λ os. (handle e w).0 ∷ os) others), rw (history, next) rest)
