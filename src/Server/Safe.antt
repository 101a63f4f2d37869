-- ===== src/Server/Safe.antt =====
-- The operations and handlers of the server have no undefined behaviour.
use kuro_net.Prelude.{
  ℕ, ◌≡◌, inl, inr, not, Option, none, some, nat_eq, list_eq, ◌==◌, Option-cases,
}
use kuro_net.Prelude.Map.{lookup}
use kuro_net.Text.{Bytes, rfind}
use kuro_net.Logger.{debug, error}
use kuro_net.Platform.{Platform, ErrorCode}
use kuro_net.Exec.{undefined, lift, gets}
use kuro_net.Exec.Safe.{Safe, Safe-if, Safe-then, Safe-bind, Safe-gets}
use kuro_net.Random.{generate_id}
use kuro_net.Dispatcher.{fill_up_field, login_key, valid_request}
use kuro_net.Registry.{get_agent, create, agent_eq, eponymous_protocol}
use kuro_net.World.{World, Client, Handler, AgentType, Registry, unknown, log, on_socket}
use kuro_net.Session.{add_client, auto_approve_client, has_error, write}
use kuro_net.Session.Safe.{
  Safe-log, Safe-write, Safe-check, Safe-on_socket, Safe-random_generate_str, Safe-add_client,
  Safe-auto_approve_client,
}
use kuro_net.Server.{
  welcome, refuse, answer, on_message, on_request, on_accept, auto_key, start, stop, do_accept,
  on_acceptor,
}
use kuro_net.Server.Metadata.{parse_client_metadata_named, parse_client_metadata_nameless}
use kuro_net.Server.Keeps.{empty-cases, on_accept_lem}

module _ {p : Platform} {X : Type 0} where
  Safe-refuse : (socket : ℕ) (text : Bytes) → Safe {S = World p} X (refuse socket text)
  unfolding refuse
  Safe-refuse socket text =
      Safe-then (write socket text) _ (Safe-write socket text)
        (Safe-bind (on_socket p.close socket) _ (Safe-on_socket p.close socket) Safe-check)

  Safe-admission :
      (o : Option ℕ) (client : Client)
      → Safe {S = World p} X
          (elim o [ some _ ↦ auto_approve_client client | none ↦ add_client client ])
  Safe-admission none client = Safe-add_client client
  Safe-admission (some i) client = Safe-auto_approve_client client

  welcome-safe :
      (message : Bytes) (handler : Handler) (client : Client) (w : World p)
      → (welcome message handler client w).0 ≡ undefined
      → X
  unfolding welcome
  welcome-safe message handler client w e = elim (empty-cases (fill_up_field message login_key)) [
    | inl nameless ↦
        let (lg, c, read) = parse_client_metadata_nameless handler message client w nameless in
        cc (rw (welcome, read) at e)
    | inr named ↦
        let (lg, read) = parse_client_metadata_named handler message client w named in
        (Safe-then (log debug _) _ (Safe-log debug _)
            (Safe-admission (rfind message auto_key) _)).at
          (record w { logger = lg }) (rw (welcome, read) at e)
  ]

  Safe-welcome :
      (message : Bytes) (handler : Handler) (client : Client)
      → Safe {S = World p} X (welcome message handler client)
  Safe-welcome message handler client = record { at = welcome-safe message handler client }

  Safe-create :
      (registry : Registry) (agent : AgentType)
      → Safe {S = World p} X (lift (create registry agent))
  unfolding eponymous_protocol
  Safe-create registry agent = record {
    at = λ w e. elim (Option-cases (lookup agent registry.protocols)) [
      | inl absent ↦ elim (Option-cases (lookup unknown registry.protocols)) [
        | inl neither ↦ cc (rw (eponymous_protocol, absent, neither) at e)
        | inr (h, there) ↦ cc (rw (eponymous_protocol, absent, there) at e)
      ]
      | inr (h, there) ↦ cc (rw (eponymous_protocol, there) at e)
    ];
  }

  Safe-answer : (socket : ℕ) (message id : Bytes) → Safe {S = World p} X (answer socket message id)
  unfolding answer
  Safe-answer socket message id =
      Safe-bind (gets λ w. w.manager.registry) _ (Safe-gets _) λ registry.
        Safe-bind (lift (create registry (get_agent registry message))) _
          (Safe-create registry (get_agent registry message))
          λ handler.
            Safe-if (not (valid_request message)) _ _ (λ bad. Safe-refuse socket _)
              λ good.
                Safe-if (get_agent registry message == unknown) _ _
                  (λ strange. Safe-refuse socket _) λ known. Safe-welcome message handler _

  pub Safe-on_request :
      (ec : ErrorCode) (socket : ℕ) (buffer : Bytes) (n : ℕ)
      → Safe {S = World p} X (on_request ec socket buffer n)
  unfolding on_request on_message generate_id
  Safe-on_request ec socket buffer n =
      Safe-if (has_error ec) _ _ (λ failed. Safe-log error _)
        λ good.
          Safe-then (log debug _) _ (Safe-log debug _)
            (Safe-bind generate_id _ (Safe-random_generate_str _) (Safe-answer socket _))

  pub Safe-on_accept : (ec : ErrorCode) (socket : ℕ) → Safe {S = World p} X (on_accept ec socket)
  Safe-on_accept ec socket = record { at = λ w e. cc ((on_accept_lem ec socket w).0) }

  pub Safe-start : Safe {S = World p} X start
  unfolding start on_acceptor do_accept
  Safe-start =
      Safe-bind (on_acceptor p.listen) _ (record { at = λ w e. cc })
        λ ec. Safe-then _ do_accept (Safe-check ec) (record { at = λ w e. cc })

  pub Safe-stop : Safe {S = World p} X stop
  unfolding stop on_acceptor
  Safe-stop = Safe-bind (on_acceptor p.close_acceptor) _ (record { at = λ w e. cc }) Safe-check
