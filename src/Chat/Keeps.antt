-- ===== src/Chat/Keeps.antt =====
-- The operations and handlers of the chat keep what stands the changes that they make.
use kuro_net.Prelude.{refl, true, false, not, ◌||◌, ◌==◌, nat_eq, list_eq, List, [], ◌∷◌, ◌++◌}
use kuro_net.Text.{Bytes, codes}
use kuro_net.Platform.{Platform, ErrorCode}
use kuro_net.Exec.{Exec, ◌>>◌, pure, gets}
use kuro_net.Logger.{error, info}
use kuro_net.World.{World, World, writing, Client, log, waiting, start_operation}
use kuro_net.Session.{has_error, access_clients}
use kuro_net.Session.Keeps.{
  Keeps, Keeps-pure, Keeps-log, Keeps-if, Keeps-then, Keeps-start_operation, Keeps-choose,
  Keeps-bind, Stands, Keeps-gets,
}
use kuro_net.Session.Closed.{Closed, Keeps-remove_client}
use kuro_net.Chat.{
  do_send, send_each, on_read, on_written, read_each, do_read, work, start, stop, set_started,
  line_of,
}

module _ {p : Platform} {S : Type 0} {look : World p → S} {P : S → Type 0}
    {allows : Bytes → Bytes → Type 0} ⦃stands : Stands look P⦄ (closed : Closed allows look P) where
  Keeps-access_clients :
      (callback : List (Bytes × Client) → Exec (World p) (Unit {0}))
      → ((entries : List (Bytes × Client)) → Keeps look P (callback entries))
      → Keeps look P (access_clients callback)
  Keeps-access_clients callback keeps = record { at = λ w h. (keeps w.manager.clients).at w h }

  Keeps-send_each :
      (sender message : Bytes) (entries : List (Bytes × Client))
      → Keeps {p = p} look P (send_each sender message entries)
  unfolding send_each
  Keeps-send_each sender message [] = Keeps-pure tt
  Keeps-send_each sender message ((id, client) ∷ entries) =
      Keeps-bind (gets λ w. p.is_open (w.sockets client.socket)) _ (Keeps-gets _) λ opened.
        Keeps-then _ (send_each sender message entries)
          (Keeps-if (id == sender || not opened) (pure tt)
            (start_operation (writing client (message ++ codes "\n"))) (Keeps-pure tt)
            (Keeps-start_operation _ (closed.writes client _)))
          (Keeps-send_each sender message entries)

  Keeps-do_send : (sender message : Bytes) → Keeps {p = p} look P (do_send sender message)
  unfolding do_send
  Keeps-do_send sender message =
      Keeps-then (log info _) _ (Keeps-log info _)
        (Keeps-access_clients (send_each sender message) (Keeps-send_each sender message))

  pub Keeps-on_read :
      (ec : ErrorCode) (id : Bytes) (client : Client) (buffer : Bytes)
      → Keeps {p = p} look P (on_read ec id client buffer)
  unfolding on_read
  Keeps-on_read ec id client buffer =
      Keeps-if (has_error ec) _ (do_send id (line_of buffer))
        (Keeps-then _ _ (Keeps-log error _) (Keeps-remove_client closed id))
        (Keeps-do_send id (line_of buffer))

  pub Keeps-on_written :
      (ec : ErrorCode) (client : Client) → Keeps {p = p} look P (on_written ec client)
  unfolding on_written
  Keeps-on_written ec client =
      Keeps-if (has_error ec) _ (pure tt)
        (Keeps-then _ _ (Keeps-log error _) (Keeps-remove_client closed client.login))
        (Keeps-pure tt)

  Keeps-read_each : (entries : List (Bytes × Client)) → Keeps {p = p} look P (read_each entries)
  unfolding read_each do_read
  Keeps-read_each [] = Keeps-pure tt
  Keeps-read_each ((id, client) ∷ entries) =
      Keeps-then (do_read id client) _ (Keeps-start_operation _ (closed.reads id client))
        (Keeps-read_each entries)

  Keeps-round :
      Keeps {p = p} look P
        (access_clients λ clients. read_each clients >> start_operation {p = p} waiting)
  Keeps-round = Keeps-access_clients _ λ entries.
      Keeps-then (read_each entries) (start_operation waiting) (Keeps-read_each entries)
        (Keeps-start_operation waiting closed.waits)

  pub Keeps-work : Keeps {p = p} look P work
  unfolding work
  Keeps-work = Keeps-choose (λ w. not w.chat_started) (pure tt) _ (Keeps-pure tt) Keeps-round

  pub Keeps-stop : Keeps {p = p} look P stop
  unfolding stop set_started
  Keeps-stop =
      Keeps-choose (λ w. not w.chat_started) (log error _) (set_started false) (Keeps-log error _)
        (record { at = λ w h. stands.rests w _ refl refl refl h })

  pub Keeps-start : Keeps {p = p} look P start
  unfolding start set_started
  Keeps-start =
      Keeps-choose (λ w. w.chat_started) (log error _) (set_started true >> work)
        (Keeps-log error _)
        (Keeps-then (set_started true) work
          (record { at = λ w h. stands.rests w _ refl refl refl h }) Keeps-work)
