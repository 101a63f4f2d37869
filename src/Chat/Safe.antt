-- ===== src/Chat/Safe.antt =====
-- The operations and handlers of the chat have no undefined behaviour.
use kuro_net.Prelude.{true, false, not, ◌||◌, ◌==◌, nat_eq, list_eq, List, [], ◌∷◌, ◌++◌}
use kuro_net.Text.{Bytes, codes}
use kuro_net.Platform.{Platform, ErrorCode}
use kuro_net.Exec.{◌>>◌, pure, gets}
use kuro_net.Exec.Safe.{
  Safe, Safe-pure, Safe-if, Safe-then, Safe-bind, Safe-gets, Safe-choose, Safe-reads,
}
use kuro_net.Logger.{error, info}
use kuro_net.World.{World, Client, writing, waiting, log, start_operation}
use kuro_net.Session.{has_error}
use kuro_net.Session.Safe.{Safe-log, Safe-start_operation, Safe-remove_client}
use kuro_net.Chat.{
  do_send, send_each, on_read, on_written, read_each, do_read, work, start, stop, set_started,
  line_of,
}

module _ {p : Platform} {X : Type 0} where
  Safe-send_each :
      (sender message : Bytes) (entries : List (Bytes × Client))
      → Safe {S = World p} X (send_each sender message entries)
  unfolding send_each
  Safe-send_each sender message [] = Safe-pure tt
  Safe-send_each sender message ((id, client) ∷ entries) =
      Safe-bind (gets λ w. p.is_open (w.sockets client.socket)) _ (Safe-gets _) λ opened.
        Safe-then _ (send_each sender message entries)
          (Safe-if (id == sender || not opened) (pure tt)
            (start_operation (writing client (message ++ codes "\n"))) (λ skip. Safe-pure tt)
            (λ sends. Safe-start_operation _))
          (Safe-send_each sender message entries)

  Safe-do_send : (sender message : Bytes) → Safe {S = World p} X (do_send sender message)
  unfolding do_send
  Safe-do_send sender message = Safe-then (log info _) _ (Safe-log info _) (
      Safe-reads (λ w. w.manager.clients) (send_each sender message)
        (Safe-send_each sender message))

  pub Safe-on_read :
      (ec : ErrorCode) (id : Bytes) (client : Client) (buffer : Bytes)
      → Safe {S = World p} X (on_read ec id client buffer)
  unfolding on_read
  Safe-on_read ec id client buffer =
      Safe-if (has_error ec) _ (do_send id (line_of buffer))
        (λ failed. Safe-then _ _ (Safe-log error _) (Safe-remove_client id))
        (λ good. Safe-do_send id (line_of buffer))

  pub Safe-on_written :
      (ec : ErrorCode) (client : Client) → Safe {S = World p} X (on_written ec client)
  unfolding on_written
  Safe-on_written ec client =
      Safe-if (has_error ec) _ (pure tt)
        (λ failed. Safe-then _ _ (Safe-log error _) (Safe-remove_client client.login))
        (λ good. Safe-pure tt)

  Safe-read_each : (entries : List (Bytes × Client)) → Safe {S = World p} X (read_each entries)
  unfolding read_each do_read
  Safe-read_each [] = Safe-pure tt
  Safe-read_each ((id, client) ∷ entries) =
      Safe-then (do_read id client) _ (Safe-start_operation _) (Safe-read_each entries)

  pub Safe-work : Safe {S = World p} X work
  unfolding work
  Safe-work =
      Safe-choose (λ w. not w.chat_started) (pure tt) _ (Safe-pure tt)
        (Safe-reads (λ w. w.manager.clients)
          (λ clients. read_each clients >> start_operation waiting)
          λ clients.
            Safe-then (read_each clients) (start_operation waiting) (Safe-read_each clients)
              (Safe-start_operation waiting))

  pub Safe-stop : Safe {S = World p} X stop
  unfolding stop set_started
  Safe-stop =
      Safe-choose (λ w. not w.chat_started) (log error _) (set_started false) (Safe-log error _)
        (record { at = λ w e. cc })

  pub Safe-start : Safe {S = World p} X start
  unfolding start set_started
  Safe-start =
      Safe-choose (λ w. w.chat_started) (log error _) (set_started true >> work) (Safe-log error _)
        (Safe-then (set_started true) work (record { at = λ w e. cc }) Safe-work)
