-- ===== src/Session/Blind.antt =====
-- The operations of the session do not depend on the order of the maps, but for the walk over the
-- clients that wait.
mod Steps
pub use Steps.{
  Blind-log, Blind-on_socket, Blind-start_operation, Blind-random_generate_str, Blind-check,
  Blind-write, Blind-create_token,
}
use Steps.{
  Blind-erase_client, Blind-erase_waiting, Blind-emplace_client, Blind-emplace_waiting,
  found_waiting, found_client,
}
use kuro_net.Prelude.{
  ◌++◌, ℕ, ◌≡◌, inl, inr, refl, true, false, Option, none, some, [], nat_eq, list_eq, Option-cases,
  if◌then◌else◌,
}
use kuro_net.Prelude.Map.{lookup, erase, emplace}
use kuro_net.Text.{Bytes, codes}
use kuro_net.Logger.{info, warning, error}
use kuro_net.Platform.{Platform}
use kuro_net.Exec.{Exec, ◌>>=◌, ◌>>◌, pure, gets}
use kuro_net.World.{World, Client, log, on_socket}
use kuro_net.World.Reorder.{
  Blind, Blind-same, Blind-pure, Blind-lift, Blind-gets, Blind-bind, Blind-then, Blind-if,
  Blind-reads, Blind-choose,
}
use kuro_net.Session.{
  has_error, write, is_open, set_manager, add_client, approve_client, admit, read_extracted,
  auto_approve_client, token_active, remove_client, close_socket,
}

module _ {p : Platform} where
  Blind-admit : (id token : Bytes) (o : Option Client) → Blind {p = p} (admit id token o)
  unfolding admit read_extracted
  Blind-admit id token none = Blind-then (log error _) _ (Blind-log error _) (Blind-pure false)
  Blind-admit id token (some c) = Blind-then (set_manager _) _ (Blind-erase_waiting id) (
      Blind-then read_extracted _ (Blind-lift _) (
        Blind-then (write c.socket _) _ (Blind-write c.socket _) (
          Blind-then (set_manager _) _ (Blind-emplace_client id (record c { token = token }))
            (Blind-pure true))))

  pub Blind-approve_client : (id token : Bytes) → Blind {p = p} (approve_client id token)
  unfolding approve_client
  Blind-approve_client id token =
      Blind-choose (λ w. token_active token w.manager.active_tokens)
        (λ w. admit id token (lookup id w.manager.wait_clients) w) _ (λ w r. refl)
        (Blind-reads (λ w. lookup id w.manager.wait_clients) (admit id token) (found_waiting id)
          (Blind-admit id token))
        (Blind-bind (log error _) _ (Blind-log error _) λ _. Blind-pure false)

  Blind-close_socket : (id : Bytes) (socket : ℕ) → Blind {p = p} (close_socket id socket)
  unfolding close_socket
  Blind-close_socket id socket =
      Blind-bind (on_socket p.shutdown socket) _ (Blind-on_socket p.shutdown socket) λ _.
        Blind-bind (on_socket p.close socket) _ (Blind-on_socket p.close socket) λ ec.
          Blind-if (has_error ec)
            (log warning
              (codes "Error closing socket for client " ++ (id ++ (codes ": " ++ p.message ec))))
            (pure tt) (Blind-log warning _) (Blind-pure tt)

  removing : Bytes → Option Client → Exec (World p) (Unit {0})
  removing id none = log warning (codes "Client " ++ (id ++ codes " not found for removal"))
  removing id (some client) = do
    opened ← gets (is_open client.socket)
    if opened then close_socket id client.socket else pure tt
    set_manager λ m. record m { clients = erase id m.clients }
    log info (codes "Client " ++ (id ++ codes " removed successfully"))

  Blind-removing : (id : Bytes) (o : Option Client) → Blind (removing id o)
  unfolding removing
  Blind-removing id none = Blind-log warning _
  Blind-removing id (some c) =
      Blind-bind (gets (is_open c.socket)) _ (Blind-gets _ λ w r. refl) λ opened.
        Blind-then (if opened then close_socket id c.socket else pure tt) _
          (Blind-if opened (close_socket id c.socket) (pure tt) (Blind-close_socket id c.socket)
            (Blind-pure tt))
          (Blind-then (set_manager _)
            (log info (codes "Client " ++ (id ++ codes " removed successfully")))
            (Blind-erase_client id) (Blind-log info _))

  remove_client-removing :
      (id : Bytes) (w : World p) → removing id (lookup id w.manager.clients) w ≡ remove_client id w
  unfolding remove_client removing
  remove_client-removing id w = elim (Option-cases (lookup id w.manager.clients)) [
    | inl absent ↦ rw (absent, remove_client) refl
    | inr (c, there) ↦ rw (there, remove_client) refl
  ]

  pub Blind-remove_client : (id : Bytes) → Blind {p = p} (remove_client id)
  Blind-remove_client id =
      Blind-same (λ w. removing id (lookup id w.manager.clients) w) (remove_client id)
        (remove_client-removing id)
        (Blind-reads (λ w. lookup id w.manager.clients) (removing id) (found_client id)
          (Blind-removing id))

  adding : Client → Option Client → Exec (World p) (Unit {0})
  adding client (some _) =
      log warning (codes "Client with id " ++ (client.id ++ codes " already exists"))
  adding client none = do
    log info (codes "New client " ++ (client.id ++ codes " trying connect"))
    set_manager λ m. record m { wait_clients = emplace client.id client m.wait_clients }

  Blind-adding : (client : Client) (o : Option Client) → Blind (adding client o)
  unfolding adding
  Blind-adding client (some old) = Blind-log warning _
  Blind-adding client none =
      Blind-then (log info _) _ (Blind-log info _) (Blind-emplace_waiting client.id client)

  add_client-adding :
      (client : Client) (w : World p)
      → adding client (lookup client.id w.manager.wait_clients) w ≡ add_client client w
  unfolding add_client adding
  add_client-adding client w = elim (Option-cases (lookup client.id w.manager.wait_clients)) [
    | inl absent ↦ rw (absent, add_client) refl
    | inr (old, there) ↦ rw (there, add_client) refl
  ]

  pub Blind-add_client : (client : Client) → Blind {p = p} (add_client client)
  Blind-add_client client =
      Blind-same (λ w. adding client (lookup client.id w.manager.wait_clients) w)
        (add_client client) (add_client-adding client)
        (Blind-reads (λ w. lookup client.id w.manager.wait_clients) (adding client)
          (found_waiting client.id) (Blind-adding client))

  pub Blind-auto_approve_client : (client : Client) → Blind {p = p} (auto_approve_client client)
  unfolding auto_approve_client
  Blind-auto_approve_client client =
      Blind-then (write client.socket _) _ (Blind-write client.socket _)
        (Blind-emplace_client client.id client)
