-- ===== src/Server/Silence.antt =====
-- While the log is stopped, the handlers of the server print nothing.
use kuro_net.Prelude.{ℕ, inl, inr, not, Option, none, some, nat_eq, list_eq, ◌==◌, Option-cases}
use kuro_net.Prelude.Map.{lookup}
use kuro_net.Text.{Bytes, rfind}
use kuro_net.Logger.{Logger, debug, info, warning, error}
use kuro_net.Logger.Clock.{current_time}
use kuro_net.Logger.Held.{Holds}
use kuro_net.Platform.{Platform, ErrorCode}
use kuro_net.Exec.{lift, gets}
use kuro_net.Random.{generate_id}
use kuro_net.Dispatcher.{valid_request, parse_client_metadata}
use kuro_net.Dispatcher.Keeps.{Keeps-parse_client_metadata}
use kuro_net.Registry.{get_agent, agent_eq}
use kuro_net.World.{Client, Handler, unknown, log}
use kuro_net.Session.{add_client, auto_approve_client, has_error, write}
use kuro_net.Session.Keeps.{
  Keeps, Keeps-log, Keeps-then, Keeps-bind, Keeps-write, Keeps-check, Keeps-gets, Keeps-if,
  Keeps-choose, Keeps-lift, Keeps-random_generate_str,
}
use kuro_net.Session.Silence.{logger_of, Holds-Stands}
use kuro_net.Server.{
  welcome, answer, on_message, on_request, on_accept, log_accepted, on_client_connected, do_accept,
  auto_key, start, on_acceptor,
}
use kuro_net.Server.Keeps.{Keeps-refuse}

module _ {p : Platform} (lg : Logger) where
  Keeps-add_client :
      (client : Client)
      → Keeps {p = p} logger_of (Holds (current_time p.clock) lg) (add_client client)
  unfolding add_client
  Keeps-add_client client = record {
    at = λ w h. elim (Option-cases (lookup client.id w.manager.wait_clients)) [
      | inl e ↦ rw (e, add_client) (Holds-Stands.logs info _ w h)
      | inr (old, e) ↦ rw (e, add_client) (Holds-Stands.logs warning _ w h)
    ];
  }

  Keeps-auto_approve_client :
      (client : Client)
      → Keeps {p = p} logger_of (Holds (current_time p.clock) lg) (auto_approve_client client)
  unfolding auto_approve_client
  Keeps-auto_approve_client client =
      Keeps-then (write client.socket _) _ (Keeps-write client.socket _) (record { at = λ w h. h })

  Keeps-admission :
      (o : Option ℕ) (client : Client)
      → Keeps {p = p} logger_of
          (Holds (current_time p.clock) lg)
          (elim o [ some _ ↦ auto_approve_client client | none ↦ add_client client ])
  Keeps-admission none client = Keeps-add_client client
  Keeps-admission (some i) client = Keeps-auto_approve_client client

  Keeps-welcome :
      (message : Bytes) (handler : Handler) (client : Client)
      → Keeps {p = p} logger_of (Holds (current_time p.clock) lg) (welcome message handler client)
  unfolding welcome
  Keeps-welcome message handler client =
      Keeps-bind (parse_client_metadata handler message client) _
        (Keeps-parse_client_metadata handler message client)
        λ read. Keeps-then (lift (read.1)) _ (Keeps-lift (read.1)) (
          Keeps-then (log debug _) _ (Keeps-log debug _)
            (Keeps-admission (rfind message auto_key) (read.0)))

  Keeps-answer :
      (socket : ℕ) (message id : Bytes)
      → Keeps {p = p} logger_of (Holds (current_time p.clock) lg) (answer socket message id)
  unfolding answer
  Keeps-answer socket message id =
      Keeps-bind (gets λ w. w.manager.registry) _ (Keeps-gets _) λ registry.
        Keeps-bind (lift _) _ (Keeps-lift _) λ handler.
          Keeps-if (not (valid_request message)) _ _ (Keeps-refuse socket _) (
            Keeps-if (get_agent registry message == unknown) _ _ (Keeps-refuse socket _)
              (Keeps-welcome message handler _))

  pub Keeps-on_request :
      (ec : ErrorCode) (socket : ℕ) (buffer : Bytes) (n : ℕ)
      → Keeps {p = p} logger_of (Holds (current_time p.clock) lg) (on_request ec socket buffer n)
  unfolding on_request on_message generate_id
  Keeps-on_request ec socket buffer n = Keeps-if (has_error ec) _ _ (Keeps-log error _) (
      Keeps-then (log debug _) _ (Keeps-log debug _)
        (Keeps-bind generate_id _ (Keeps-random_generate_str _) (Keeps-answer socket _)))

  Keeps-do_accept : Keeps {p = p} logger_of (Holds (current_time p.clock) lg) do_accept
  unfolding do_accept
  Keeps-do_accept = record { at = λ w h. h }

  Keeps-log_accepted :
      (ec : ErrorCode) (socket : ℕ)
      → Keeps {p = p} logger_of (Holds (current_time p.clock) lg) (log_accepted ec socket)
  unfolding log_accepted
  Keeps-log_accepted ec socket =
      Keeps-choose (λ w. has_error ec) _ _ (Keeps-log error _)
        (Keeps-choose (λ w. has_error (p.remote_endpoint (w.sockets socket)).0) _ _
          (record { at = λ w h. Holds-Stands.logs error _ w h })
          (record { at = λ w h. Holds-Stands.logs info _ w h }))

  pub Keeps-on_accept :
      (ec : ErrorCode) (socket : ℕ)
      → Keeps {p = p} logger_of (Holds (current_time p.clock) lg) (on_accept ec socket)
  unfolding on_accept on_client_connected
  Keeps-on_accept ec socket =
      Keeps-then (log_accepted ec socket) _ (Keeps-log_accepted ec socket) (
        Keeps-then (on_client_connected socket) do_accept (record { at = λ w h. h })
          Keeps-do_accept)

  pub Keeps-start : Keeps {p = p} logger_of (Holds (current_time p.clock) lg) start
  unfolding start on_acceptor
  Keeps-start =
      Keeps-bind (on_acceptor p.listen) _ (record { at = λ w h. h })
        λ ec. Keeps-then _ do_accept (Keeps-check ec) Keeps-do_accept
