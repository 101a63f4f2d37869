-- ===== src/Chat/Delivery.antt =====
-- Who gets a message, and what a failed write does.
use kuro_net.Logger.Clock.{current_time}
use mathlib.Core.List.{append-nil, append_assoc}
use kuro_net.Prelude.{
  ◌≡◌, ◌≢◌, refl, not, ◌&&◌, none, List, [], ◌∷◌, ◌++◌, nat_eq, list_eq, ◌==◌, if◌then◌else◌,
  Bool-cases, inl, inr,
}
use kuro_net.Prelude.Map.{lookup}
use kuro_net.Text.{Bytes, codes}
use kuro_net.Logger.{Logger, info, error}
use kuro_net.Logger
use kuro_net.Platform.{Platform, ErrorCode, success}
use kuro_net.Exec.{ok}
use kuro_net.Session.{has_error}
use kuro_net.Session.Removal.{remove_client_lem, no_error}
use kuro_net.World.{World, Client, Pending, writing, log}
use kuro_net.Chat.{do_send, send_each, on_written}

-- The writes of a message: one to each approved client whose socket is open, but not to the sender,
-- in the order of the map.
unfoldable pub deliveries :
    {p : Platform} → World p → Bytes → Bytes → List (Bytes × Client) → List Pending
deliveries w sender message [] = []
deliveries {p} w sender message ((id, client) ∷ entries) =
    let rest = deliveries w sender message entries in
    if not (id == sender) && p.is_open (w.sockets client.socket)
    then writing client (message ++ codes "\n") ∷ rest
    else rest

module _ {p : Platform} where
  send_each_lem :
      (sender message : Bytes) (entries : List (Bytes × Client)) (w : World p) (ops : List Pending)
      → send_each sender message entries (record w { pending = ops })
        ≡ (ok tt, record w { pending = ops ++ deliveries w sender message entries })
  unfolding send_each deliveries
  send_each_lem sender message [] w ops = rw (append-nil ops)
  send_each_lem sender message ((id, client) ∷ entries) w ops =
      let op = writing client (message ++ codes "\n") in
      elim (Bool-cases (id == sender)) [
        | inl own ↦ rw (own, deliveries) (send_each_lem sender message entries w ops)
        | inr other ↦ elim (Bool-cases (p.is_open (w.sockets client.socket))) [
          | inl opened ↦ rw (
            other,
            deliveries,
            opened,
            send_each_lem sender message entries w (ops ++ op ∷ []),
            append_assoc,
          )
          | inr closed ↦ rw (other, deliveries, closed) (send_each_lem sender message entries w ops)
        ]
      ]

  -- A message is logged and starts one write to each approved client that has an open socket and is not
  -- the sender, in the order of the map; it changes nothing else, and returns.
  pub do_send_lem :
      (sender message : Bytes) (w : World p)
      → do_send sender message w ≡ (
        ok tt,
        record w {
          logger =
              Logger.log
                (current_time p.clock)
                info
                (codes "Client " ++ (sender ++ (codes " write: \n\t" ++ message)))
                w.logger;
          pending = w.pending ++ deliveries w sender message w.manager.clients;
        },
      )
  unfolding do_send deliveries
  do_send_lem sender message w = send_each_lem sender message w.manager.clients logged w.pending
    where
      logged : World p
      logged = record w {
        logger =
            Logger.log (current_time p.clock) info
              (codes "Client " ++ (sender ++ (codes " write: \n\t" ++ message))) w.logger;
      }

  -- The handler of a write returns. Without an error it changes nothing; with one, the id that equals
  -- the client's login is no approved client's any more, and every other approved client stays, the one
  -- whose write failed included where its login is not its id. Those that wait stay in any case.
  pub on_written_lem :
      (ec : ErrorCode) (client : Client) (w : World p)
      → ((on_written ec client w).0 ≡ ok tt)
        × (ec ≡ success → (on_written ec client w).1 ≡ w)
        × (ec ≢ success
            → (j : Bytes)
            → lookup j (on_written ec client w).1.manager.clients
              ≡ (if client.login == j then none else lookup j w.manager.clients))
        × ((on_written ec client w).1.manager.wait_clients ≡ w.manager.wait_clients)
  unfolding on_written
  on_written_lem ec client w = elim (Bool-cases (has_error ec)) [
    | inl failed ↦
        let text = codes "Client " ++ (client.login ++ (codes " - send error" ++ p.message ec)) in
        let (returns, waits, left) = remove_client_lem client.login (log error text w).1 in
        rw (on_written, failed) (returns, λ none. cc, λ some. left, waits)
    | inr good ↦
        rw (on_written, good) (refl, λ none. refl, λ some. absurd (some (no_error ec good)), refl)
  ]
