-- ===== src/Server/Blind.antt =====
-- The operations and handlers of the server do not depend on the order of the maps.
use kuro_net.Prelude.{ℕ, refl, inl, inr, not, Option, none, some, nat_eq, list_eq, ◌==◌, Bool-cases}
use kuro_net.Text.{Bytes, rfind}
use kuro_net.Logger.{debug, error}
use kuro_net.Platform.{Platform, ErrorCode}
use kuro_net.Exec.{lift, gets}
use kuro_net.Random.{generate_id}
use kuro_net.Dispatcher.{valid_request, parse_client_metadata}
use kuro_net.Dispatcher.Blind.{Blind-parse_client_metadata}
use kuro_net.Registry.{get_agent, create, agent_eq}
use kuro_net.World.{Client, Handler, unknown, accepting, requesting, log, on_socket}
use kuro_net.World.Reorder.{Blind, Blind-lift, Blind-gets, Blind-bind, Blind-then, Blind-if}
use kuro_net.Session.{add_client, auto_approve_client, has_error, write, check}
use kuro_net.Session.Blind.{
  Blind-random_generate_str, Blind-log, Blind-write, Blind-check, Blind-on_socket,
  Blind-start_operation, Blind-add_client, Blind-auto_approve_client,
}
use kuro_net.Server.{
  welcome, refuse, answer, on_message, on_request, on_accept, auto_key, start, stop, do_accept,
  on_acceptor, make_socket, log_accepted, on_client_connected,
}

module _ {p : Platform} where
  Blind-refuse : (socket : ℕ) (text : Bytes) → Blind {p = p} (refuse socket text)
  unfolding refuse
  Blind-refuse socket text =
      Blind-then (write socket text) _ (Blind-write socket text)
        (Blind-bind (on_socket p.close socket) _ (Blind-on_socket p.close socket) Blind-check)

  Blind-admission :
      (o : Option ℕ) (client : Client)
      → Blind {p = p} (elim o [ some _ ↦ auto_approve_client client | none ↦ add_client client ])
  Blind-admission none client = Blind-add_client client
  Blind-admission (some i) client = Blind-auto_approve_client client

  Blind-welcome :
      (message : Bytes) (handler : Handler) (client : Client)
      → Blind {p = p} (welcome message handler client)
  unfolding welcome
  Blind-welcome message handler client =
      Blind-bind (parse_client_metadata handler message client) _
        (Blind-parse_client_metadata handler message client)
        λ parsed. Blind-bind (lift parsed.1) _ (Blind-lift parsed.1) λ _.
          Blind-bind (log debug parsed.0.agent_type) _ (Blind-log debug _)
            λ _. Blind-admission (rfind message auto_key) parsed.0

  Blind-answer : (socket : ℕ) (message id : Bytes) → Blind {p = p} (answer socket message id)
  unfolding answer
  Blind-answer socket message id =
      Blind-bind (gets λ w. w.manager.registry) _ (Blind-gets _ λ w r. refl) λ registry.
        Blind-bind (lift (create registry (get_agent registry message))) _ (Blind-lift _) λ handler.
          Blind-if (not (valid_request message)) _ _ (Blind-refuse socket _) (
            Blind-if (get_agent registry message == unknown) _ _ (Blind-refuse socket _)
              (Blind-welcome message handler _))

  pub Blind-on_request :
      (ec : ErrorCode) (socket : ℕ) (buffer : Bytes) (n : ℕ)
      → Blind {p = p} (on_request ec socket buffer n)
  unfolding on_request on_message generate_id
  Blind-on_request ec socket buffer n = Blind-if (has_error ec) _ _ (Blind-log error _) (
      Blind-then (log debug _) _ (Blind-log debug _)
        (Blind-bind generate_id _ (Blind-random_generate_str _) (Blind-answer socket _)))

  Blind-do_accept : Blind {p = p} do_accept
  unfolding do_accept make_socket
  Blind-do_accept =
      Blind-bind make_socket _ (record { at = λ w r. (r, refl) })
        λ socket. Blind-start_operation (accepting socket)

  Blind-log_accepted : (ec : ErrorCode) (socket : ℕ) → Blind {p = p} (log_accepted ec socket)
  unfolding log_accepted
  Blind-log_accepted ec socket = record {
    at = λ w r. elim (Bool-cases (has_error ec)) [
      | inl failed ↦ rw (log_accepted, failed) (r, refl)
      | inr good ↦ elim (Bool-cases (has_error ((p.remote_endpoint (w.sockets socket)).0))) [
        | inl unknown_peer ↦ rw (log_accepted, good, unknown_peer) (r, refl)
        | inr peer ↦ rw (log_accepted, good, peer) (r, refl)
      ]
    ];
  }

  pub Blind-on_accept : (ec : ErrorCode) (socket : ℕ) → Blind {p = p} (on_accept ec socket)
  unfolding on_accept on_client_connected
  Blind-on_accept ec socket = Blind-then (log_accepted ec socket) _ (Blind-log_accepted ec socket) (
      Blind-then (on_client_connected socket) do_accept (Blind-start_operation (requesting socket))
        Blind-do_accept)

  pub Blind-start : Blind {p = p} start
  unfolding start on_acceptor
  Blind-start =
      Blind-bind (on_acceptor p.listen) _ (record { at = λ w r. (r, refl) })
        λ ec. Blind-then (check ec) do_accept (Blind-check ec) Blind-do_accept

  pub Blind-stop : Blind {p = p} stop
  unfolding stop on_acceptor
  Blind-stop =
      Blind-bind (on_acceptor p.close_acceptor) _ (record { at = λ w r. (r, refl) }) Blind-check
