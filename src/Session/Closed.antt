-- ===== src/Session/Closed.antt =====
-- What an invariant of the process has to stand: the changes that the operations of the session make.
-- Each operation keeps an invariant that stands them, on every outcome.
use kuro_net.Prelude.{
  ℕ, ◌≡◌, inl, inr, refl, Bool, true, Option, none, some, List, [], ◌++◌, nat_eq, list_eq,
  Bool-cases, Option-cases, if◌then◌else◌,
}
use kuro_net.Prelude.Map.{lookup, erase}
use kuro_net.Text.{Bytes, codes}
use kuro_net.Logger.{info, warning, error}
use kuro_net.Platform.{Platform}
use kuro_net.Exec.{Exec, ◌>>◌, pure}
use kuro_net.World.{
  World, Client, reading, writing, waiting, View, view, put_operation, log, start_operation,
}
use kuro_net.Session.{
  token_active, close_socket, is_open, write, has_error, literal, sweep, add_client, remove_client,
  create_token, approve_client, admit, read_extracted, auto_approve_client, access_wait_clients,
  set_manager,
}
use kuro_net.Session.Keeps.{
  Keeps, Keeps-pure, Keeps-log, Keeps-if, Keeps-then, Keeps-set_manager, Keeps-close_socket,
  sweep-rule, forget_waiting, forget_client, put_waiting, put_client, put_token, without_waiting,
  without_client, with_client, Stands,
}

-- Any id may be approved with any token.
abbrev pub Anyone : Bytes → Bytes → Type 0
Anyone id token = Unit

-- `allows` says which ids may be approved with which tokens.
pub record ViewClosed (allows : Bytes → Bytes → Type 0) (P : View → Type 0) : Type 0 where
  pub forgets_waiting : (id : Bytes) (v : View) → P v → P (forget_waiting id v)
  pub forgets_client : (id : Bytes) (v : View) → P v → P (forget_client id v)
  pub puts_token : (token : Bytes) (v : View) → P v → P (put_token token v)
  pub admits :
      (id token : Bytes) (c : Client) (v : View)
      → allows id token
      → token_active token v.manager.active_tokens ≡ true
      → lookup id v.manager.wait_clients ≡ some c
      → P v
      → P (put_client id (record c { token = token }) (forget_waiting id v))
  pub reads : (id : Bytes) (c : Client) (v : View) → P v → P (put_operation (reading id c) v)
  pub writes : (c : Client) (text : Bytes) (v : View) → P v → P (put_operation (writing c text) v)
  pub waits : (v : View) → P v → P (put_operation waiting v)

-- The same of the process, as far as `look` sees it.
pub record Closed {p : Platform} {S : Type 0} (allows : Bytes → Bytes → Type 0) (look : World p → S)
    (P : S → Type 0) : Type 0 where
  pub forgets_waiting : (id : Bytes) (w : World p) → P (look w) → P (look (without_waiting id w))
  pub forgets_client : (id : Bytes) (w : World p) → P (look w) → P (look (without_client id w))
  pub puts_token : (token : Bytes) (w : World p) → P (look w) → P (look (create_token token w).1)
  pub admits :
      (id token : Bytes) (c : Client) (w : World p)
      → allows id token
      → token_active token w.manager.active_tokens ≡ true
      → lookup id w.manager.wait_clients ≡ some c
      → P (look w)
      → P (look (with_client id (record c { token = token }) (without_waiting id w)))
  pub reads :
      (id : Bytes) (c : Client) (w : World p)
      → P (look w)
      → P (look (start_operation (reading id c) w).1)
  pub writes :
      (c : Client) (text : Bytes) (w : World p)
      → P (look w)
      → P (look (start_operation (writing c text) w).1)
  pub waits : (w : World p) → P (look w) → P (look (start_operation waiting w).1)

pub viewed :
    {p : Platform} {allows : Bytes → Bytes → Type 0} {P : View → Type 0}
    → ViewClosed allows P
    → Closed {p = p} allows view P
unfolding create_token
viewed closed = record {
  forgets_waiting = λ id w. closed.forgets_waiting id (view w);
  forgets_client = λ id w. closed.forgets_client id (view w);
  puts_token = λ token w. closed.puts_token token (view w);
  admits = λ id token c w. closed.admits id token c (view w);
  reads = λ id c w. closed.reads id c (view w);
  writes = λ c text w. closed.writes c text (view w);
  waits = λ w. closed.waits (view w);
}

-- From `Q` to `P`, where a client comes from a socket: it may be left out, put in the map of those that
-- wait, or, where `automatic` holds, in the map of the approved clients.
pub record Arrives (socket : ℕ) (automatic : Type 0) (Q P : View → Type 0) : Type 0 where
  pub leaves : (v : View) → Q v → P v
  pub joins_waiting : (c : Client) (v : View) → c.socket ≡ socket → Q v → P (put_waiting c v)
  pub joins :
      (c : Client) (v : View)
      → automatic
      → c.socket ≡ socket
      → c.token ≡ []
      → Q v
      → P (put_client c.id c v)

module _ {p : Platform} {S : Type 0} {look : World p → S} {P : S → Type 0}
    {allows : Bytes → Bytes → Type 0} ⦃stands : Stands look P⦄ (closed : Closed allows look P) where
  pub Keeps-remove_client : (id : Bytes) → Keeps {p = p} look P (remove_client id)
  unfolding remove_client
  Keeps-remove_client id = record {
    at = λ w h. elim (Option-cases (lookup id w.manager.clients)) [
      | inl e ↦ rw (e, remove_client) (stands.logs warning _ w h)
      | inr (c, e) ↦ rw (e, remove_client) ((removes c.socket (is_open c.socket w)).at w h)
    ];
  }
    where
      removes :
          (socket : ℕ) (opened : Bool)
          → Keeps {p = p} look P (
              (if opened then close_socket id socket else pure tt)
              >> ((set_manager λ m. record m { clients = erase id m.clients })
                  >> log info (codes "Client " ++ (id ++ codes " removed successfully"))))
      removes socket opened =
          Keeps-then (if opened then close_socket id socket else pure tt) _
            (Keeps-if opened (close_socket id socket) (pure tt) (Keeps-close_socket id socket)
              (Keeps-pure tt))
            (Keeps-then _ (log info (codes "Client " ++ (id ++ codes " removed successfully")))
              (Keeps-set_manager (λ m. record m { clients = erase id m.clients })
                (closed.forgets_client id))
              (Keeps-log info _))

  pub Keeps-create_token : (token : Bytes) → Keeps {p = p} look P (create_token token)
  unfolding create_token
  Keeps-create_token token = record { at = closed.puts_token token }

  admit-keeps :
      (id token : Bytes) (o : Option Client) (w : World p)
      → allows id token
      → lookup id w.manager.wait_clients ≡ o
      → token_active token w.manager.active_tokens ≡ true
      → P (look w)
      → P (look (admit id token o w).1)
  unfolding admit write read_extracted
  admit-keeps id token none w allowed stands_there active h = stands.logs error _ w h
  admit-keeps id token (some c) w allowed stands_there active h =
      let failed = has_error ((p.write (literal "You are approved\n") (w.sockets c.socket)).0) in
      elim (Bool-cases p.reads_extracted) [
        | inr lost ↦ rw (admit, lost) (closed.forgets_waiting id w h)
        | inl kept ↦ elim (Bool-cases failed) [
          | inl e ↦
              rw (admit, kept, e)
                (stands.rests (without_waiting id w) _ refl refl refl
                  (closed.forgets_waiting id w h))
          | inr e ↦
              rw (admit, kept, e)
                (stands.rests (with_client id (record c { token = token }) (without_waiting id w)) _
                  refl refl refl (closed.admits id token c w allowed active stands_there h))
        ]
      ]

  pub Keeps-approve_client :
      (id token : Bytes) → allows id token → Keeps {p = p} look P (approve_client id token)
  unfolding approve_client
  Keeps-approve_client id token allowed = record {
    at = λ w h. elim (Bool-cases (token_active token w.manager.active_tokens)) [
      | inl e ↦ rw (e, approve_client) (admit-keeps id token _ w allowed refl e h)
      | inr e ↦ rw (e, approve_client) (stands.logs error _ w h)
    ];
  }

  Keeps-sweep : (entries : List (Bytes × Client)) → Keeps {p = p} look P (sweep entries)
  Keeps-sweep = sweep-rule closed.forgets_waiting

  pub Keeps-access_wait_clients :
      {A : Type 0} (callback : List (Bytes × Client) → Exec (World p) A)
      → ((entries : List (Bytes × Client)) → Keeps look P (callback entries))
      → Keeps look P (access_wait_clients callback)
  unfolding access_wait_clients
  Keeps-access_wait_clients callback keeps = record {
    at = λ w h.
        (Keeps-then (sweep w.manager.wait_clients) (λ u. callback u.manager.wait_clients u)
            (Keeps-sweep w.manager.wait_clients)
            (record { at = λ u k. (keeps u.manager.wait_clients).at u k })).at
          w h;
  }

module _ {p : Platform} {Q P : View → Type 0} (c : Client) {automatic : Type 0}
    (arrives : Arrives c.socket automatic Q P) where
  pub add_client-arrives : (w : World p) → Q (view w) → P (view (add_client c w).1)
  unfolding add_client
  add_client-arrives w h = elim (Option-cases (lookup c.id w.manager.wait_clients)) [
    | inl e ↦ rw (e, add_client) (arrives.joins_waiting c (view w) refl h)
    | inr (old, e) ↦ rw (e, add_client) (arrives.leaves (view w) h)
  ]

  pub auto_approve_client-arrives :
      (w : World p) → automatic → c.token ≡ [] → Q (view w) → P (view (auto_approve_client c w).1)
  unfolding auto_approve_client write
  auto_approve_client-arrives w auto free h =
      let failed = has_error ((p.write (literal "You are auto approved") (w.sockets c.socket)).0) in
      elim (Bool-cases failed) [
        | inl e ↦ rw e (arrives.leaves (view w) h)
        | inr e ↦ rw e (arrives.joins c (view w) auto refl free h)
      ]
