-- ===== src/Chat.antt =====
-- include/net/Chat/Chat.hpp and src/net/Chat/Chat.cpp: the operations of the chat and the handlers
-- of what it starts. What Boost.Asio hands to a handler is an argument of it.
pub mod Delivery
pub mod Rounds
pub mod Restart
pub mod Keeps
pub mod Safe
pub mod Blind
use kuro_net.Prelude.{
  ℕ, Bool, true, false, not, ◌||◌, Option, none, some, List, [], ◌∷◌, ◌++◌, nat_eq, list_eq, ◌==◌,
  if◌then◌else◌, take,
}
use kuro_net.Text.{Bytes, codes, find}
use kuro_net.Logger.{error, info}
use kuro_net.Platform.{Platform, ErrorCode}
use kuro_net.Exec.{Exec, Outcome, ok, ◌>>=◌, ◌>>◌, pure, gets}
use kuro_net.Session.{remove_client, access_clients, has_error}
use kuro_net.World.{World, Client, Pending, reading, writing, waiting, log, start_operation}

-- `std::getline`: the text up to the first newline, or all of it.
unfoldable pub line_of : Bytes → Bytes
line_of buffer = elim (find buffer (codes "\n")) [ none ↦ buffer | some i ↦ take i buffer ]

module _ {p : Platform} where
  unfoldable pub do_read : Bytes → Client → Exec (World p) (Unit {0})
  do_read client_id client = start_operation (reading client_id client)

  -- The loop of `do_send` over the clients.
  pub send_each : Bytes → Bytes → List (Bytes × Client) → Exec (World p) (Unit {0})
  send_each sender_id message [] = pure tt
  send_each sender_id message ((client_id, client) ∷ entries) = do
    opened ← gets λ w. p.is_open (w.sockets client.socket)
    if client_id == sender_id || not opened
        then pure tt
        else start_operation (writing client (message ++ codes "\n"))
    send_each sender_id message entries

  unfoldable pub do_send : Bytes → Bytes → Exec (World p) (Unit {0})
  unfolding send_each
  do_send sender_id message = do
    log info (codes "Client " ++ (sender_id ++ (codes " write: \n\t" ++ message)))
    access_clients λ clients. send_each sender_id message clients

  -- The handler of `async_read_until`, with the bytes in the buffer.
  unfoldable pub on_read : ErrorCode → Bytes → Client → Bytes → Exec (World p) (Unit {0})
  on_read ec client_id client buffer =
      if has_error ec
      then (log error
            (codes "Client: " ++ (client.login ++ (codes " - read error: " ++ p.message ec)))
          >> remove_client client_id)
      else do_send client_id (line_of buffer)

  -- The handler of `async_write`.
  unfoldable pub on_written : ErrorCode → Client → Exec (World p) (Unit {0})
  on_written ec client =
      if has_error ec
      then (log error (codes "Client " ++ (client.login ++ (codes " - send error" ++ p.message ec)))
          >> remove_client client.login)
      else pure tt

  -- The loop of `work` over the clients.
  pub read_each : List (Bytes × Client) → Exec (World p) (Unit {0})
  unfolding do_read
  read_each [] = pure tt
  read_each ((client_id, client) ∷ entries) = do do_read client_id client; read_each entries

  -- `work`, which is also the handler of the timer, whatever its error code.
  unfoldable pub work : Exec (World p) (Unit {0})
  unfolding read_each
  work w =
      if not w.chat_started
      then (ok tt, w)
      else access_clients (λ clients. read_each clients >> start_operation waiting) w

  set_started : Bool → Exec (World p) (Unit {0})
  set_started b w = (ok tt, record w { chat_started = b })

  unfoldable pub stop : Exec (World p) (Unit {0})
  unfolding set_started
  stop w =
      if not w.chat_started
      then log error (codes "I can't stop something that didn't start") w
      else set_started false w

  unfoldable pub start : Exec (World p) (Unit {0})
  unfolding set_started
  start w =
      if w.chat_started
      then log error (codes "I can't run something that's already running") w
      else (set_started true >> work) w
