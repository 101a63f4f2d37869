-- ===== src/Process/Invariant.antt =====
-- Whatever happens in the process, the maps of the session stay well formed.
use mathlib.Core.Path.{subst}
use kuro_net.Prelude.{sym, inl, inr, List, [], ◌∷◌}
use kuro_net.Platform.{Platform}
use kuro_net.World.{World}
use kuro_net.Session.Keeps.{view-Stands}
use kuro_net.Session.Valid.{IsValid}
use kuro_net.Session.Invariant.{IsValidView, IsValid-Closed, IsValid-Arrives}
use kuro_net.Server.Keeps.{Turns-on_request, on_accept_lem, start_lem}
use kuro_net.Process.{
  Event, accepted, requested, read, written, timed, starts, stops, server_starts, server_stops,
  token_commands, clients_commands, happens, history,
}
use kuro_net.Process.Keeps.{happens-inner}

module _ {p : Platform} where
  pub happens-IsValid :
      (e : Event) (w : World p) → IsValid w.manager → IsValid (happens e w).manager
  unfolding happens
  happens-IsValid (accepted ec socket) w v =
      subst IsValidView (sym ((on_accept_lem ec socket w).1)) v
  happens-IsValid (requested ec socket buffer n) w v =
      (Turns-on_request socket ec buffer n (IsValid-Arrives socket)).at w v
  happens-IsValid server_starts w v = elim (start_lem w) [
    | inl started ↦ subst IsValidView (sym started.1) v
    | inr failed ↦ subst IsValidView (sym failed.1) v
  ]
  happens-IsValid (read ec id client buffer) w v =
      happens-inner IsValid-Closed (read ec id client buffer) w tt v
  happens-IsValid (written ec client) w v = happens-inner IsValid-Closed (written ec client) w tt v
  happens-IsValid timed w v = happens-inner IsValid-Closed timed w tt v
  happens-IsValid starts w v = happens-inner IsValid-Closed starts w tt v
  happens-IsValid stops w v = happens-inner IsValid-Closed stops w tt v
  happens-IsValid server_stops w v = happens-inner IsValid-Closed server_stops w tt v
  happens-IsValid (token_commands cmd) w v =
      happens-inner IsValid-Closed (token_commands cmd) w tt v
  happens-IsValid (clients_commands cmd) w v =
      happens-inner IsValid-Closed (clients_commands cmd) w (λ e. tt) v

  -- Over every history of accepted sockets, requests, lines and writes of the chat, rounds of its timer,
  -- starts and stops of the chat and of the server, and commands of the operator, whether their handlers
  -- return or throw, from maps that are well formed: the maps keep one entry for each id, under the id
  -- of its client, and each approved client has an active token or none.
  pub history-IsValid :
      (es : List Event) (w : World p) → IsValid w.manager → IsValid (history es w).manager
  unfolding history
  history-IsValid [] w v = v
  history-IsValid (e ∷ es) w v = history-IsValid es (happens e w) (happens-IsValid e w v)
