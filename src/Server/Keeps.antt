-- ===== src/Server/Keeps.antt =====
-- The handlers of the server, and the changes that an invariant of the process has to stand there.
use kuro_net.Prelude.{
  take, some, ℕ, ◌+◌, ◌++◌, ◌≡◌, ◌≢◌, ◌⊎◌, inl, inr, refl, not, [], ◌∷◌, nat_eq, list_eq,
  Bool-cases, Option-cases,
}
use kuro_net.Text.{Bytes, rfind, erase_byte}
use kuro_net.Platform.{Platform, ErrorCode}
use kuro_net.Exec.{ok, gets, lift}
use kuro_net.Logger.{Logger, debug, error}
use kuro_net.Random.{generate_id}
use kuro_net.Dispatcher.{fill_up_field, login_key, valid_request}
use kuro_net.World.{World, Client, Handler, View, view, accepting, requesting, log, on_socket}
use kuro_net.Session.{write, has_error}
use kuro_net.Session.Keeps.{
  Keeps, Keeps-log, Keeps-then, Keeps-bind, Keeps-write, Keeps-check, Keeps-on_socket, Keeps-gets,
  Keeps-lift, Keeps-random_generate_str, Stands, view-Stands,
}
use kuro_net.Session.Turns.{Turns, Turns-Keeps, Turns-bind, Turns-if}
use kuro_net.Session.Closed.{Arrives, add_client-arrives, auto_approve_client-arrives}
use kuro_net.Server.{
  welcome, refuse, answer, on_message, on_request, on_accept, log_accepted, on_client_connected,
  do_accept, auto_key, start, stop, on_acceptor,
}
use kuro_net.Server.Metadata.{parse_client_metadata_named, parse_client_metadata_nameless}

pub empty-cases : (text : Bytes) → (text ≡ []) ⊎ (text ≢ [])
empty-cases [] = inl refl
empty-cases (c ∷ text) = inr λ e. cc

module _ {p : Platform} {S : Type 0} {look : World p → S} {Q : S → Type 0}
    ⦃stands : Stands look Q⦄ where
  pub Keeps-refuse : (socket : ℕ) (text : Bytes) → Keeps {p = p} look Q (refuse socket text)
  unfolding refuse
  Keeps-refuse socket text =
      Keeps-then (write socket text) _ (Keeps-write socket text)
        (Keeps-bind (on_socket p.close socket) _ (Keeps-on_socket p.close socket) Keeps-check)

-- The bytes of a request, and a request that asks to be approved at once.
abbrev pub request_of : Bytes → ℕ → Bytes
request_of buffer n = erase_byte b'\r' (take n buffer)

abbrev pub IsAutomatic : Bytes → Type 0
IsAutomatic message = (i : ℕ) × (rfind message auto_key ≡ some i)

-- A request turns `Q` to `P`, where its client may be left out or put in either map.
module _ {p : Platform} {Q P : View → Type 0} (socket : ℕ) (message : Bytes)
    (arrives : Arrives socket (IsAutomatic message) Q P) where
  open arrives use {leaves}

  module _ (handler : Handler) (client : Client) (same : client.socket ≡ socket)
      (free : client.token ≡ []) (w : World p) where
    arrives_here : Arrives client.socket (IsAutomatic message) Q P
    arrives_here = rw same arrives

    -- A client of a request has no token, so that an automatic approval of it can be trusted.
    welcome_named-arrives :
        fill_up_field message login_key ≢ []
        → Q (view w)
        → P (view (welcome message handler client w).1)
    unfolding welcome
    welcome_named-arrives named h =
        let (lg, e) = parse_client_metadata_named handler message client w named in
        elim (Option-cases (rfind message auto_key)) [
          | inl manual ↦ rw (e, welcome, manual) (add_client-arrives _ arrives_here _ h)
          | inr (i, auto) ↦
              rw (e, welcome, auto) (auto_approve_client-arrives _ arrives_here _ (i, auto) free h)
        ]

    welcome_nameless-arrives :
        fill_up_field message login_key ≡ []
        → Q (view w)
        → P (view (welcome message handler client w).1)
    unfolding welcome
    welcome_nameless-arrives nameless h =
        let (lg, c, e) = parse_client_metadata_nameless handler message client w nameless in
        rw (e, welcome) (leaves (view w) h)

  Turns-welcome :
      (handler : Handler) (client : Client)
      → client.socket ≡ socket
      → client.token ≡ []
      → Turns {p = p} Q P (welcome message handler client)
  Turns-welcome handler client same free = record {
    at = λ w h. elim (empty-cases (fill_up_field message login_key)) [
      | inl nameless ↦ welcome_nameless-arrives handler client same free w nameless h
      | inr named ↦ welcome_named-arrives handler client same free w named h
    ];
  }

  Turns-answer : (id : Bytes) → Turns {p = p} Q P (answer socket message id)
  unfolding answer
  Turns-answer id = Turns-bind leaves (gets λ w. w.manager.registry) _ (Keeps-gets _) λ registry.
      Turns-bind leaves (lift _) _ (Keeps-lift _) λ handler.
        Turns-if (not (valid_request message)) _ _ (Turns-Keeps leaves _ (Keeps-refuse socket _)) (
          Turns-if _ _ _ (Turns-Keeps leaves _ (Keeps-refuse socket _))
            (Turns-welcome handler _ refl refl))

  Turns-on_message : Turns {p = p} Q P (on_message socket message)
  unfolding on_message generate_id
  Turns-on_message =
      Turns-bind leaves (log debug message) _ (Keeps-log debug message)
        λ _. Turns-bind leaves generate_id _ (Keeps-random_generate_str _) Turns-answer

pub Turns-on_request :
    {p : Platform} {Q P : View → Type 0} (socket : ℕ) (ec : ErrorCode) (buffer : Bytes) (n : ℕ)
    → Arrives socket (IsAutomatic (request_of buffer n)) Q P
    → Turns {p = p} Q P (on_request ec socket buffer n)
unfolding on_request
Turns-on_request socket ec buffer n arrives =
    Turns-if (has_error ec) _ _ (Turns-Keeps arrives.leaves _ (Keeps-log error _))
      (Turns-on_message socket (request_of buffer n) arrives)

-- What the accept of a socket leaves behind: its request is read, and the next accept is started, into
-- a socket that is new.
abbrev pub accepted_view : ℕ → View → View
accepted_view socket v = record v {
  pending = (v.pending ++ requesting socket ∷ []) ++ accepting v.next_socket ∷ [];
  next_socket = v.next_socket + 1;
}

module _ {p : Platform} where
  log_accepted_lem :
      (ec : ErrorCode) (socket : ℕ) (w : World p)
      → (lg : Logger) × (log_accepted ec socket w ≡ (ok tt, record w { logger = lg }))
  unfolding log_accepted
  log_accepted_lem ec socket w = elim (Bool-cases (has_error ec)) [
    | inl e ↦ ((log_accepted ec socket w).1.logger, rw (e, log_accepted) refl)
    | inr e ↦ elim (Bool-cases (has_error (p.remote_endpoint (w.sockets socket)).0)) [
      | inl a ↦ ((log_accepted ec socket w).1.logger, rw (e, log_accepted, a) refl)
      | inr a ↦ ((log_accepted ec socket w).1.logger, rw (e, log_accepted, a) refl)
    ]
  ]

  -- The handler of an accept returns, whatever the error code is.
  pub on_accept_lem :
      (ec : ErrorCode) (socket : ℕ) (w : World p)
      → ((on_accept ec socket w).0 ≡ ok tt)
        × (view (on_accept ec socket w).1 ≡ accepted_view socket (view w))
  unfolding on_accept on_client_connected do_accept
  on_accept_lem ec socket w =
      let (lg, e) = log_accepted_lem ec socket w in (rw (on_accept, e) refl, rw (on_accept, e) refl)

-- What a started accept leaves behind.
abbrev pub accepting_view : View → View
accepting_view v = record v {
  pending = v.pending ++ accepting v.next_socket ∷ [];
  next_socket = v.next_socket + 1;
}

module _ {p : Platform} where
  -- The server starts to accept, or throws.
  pub start_lem :
      (w : World p)
      → (((start w).0 ≡ ok tt) × (view (start w).1 ≡ accepting_view (view w)))
        ⊎ (((start w).0 ≢ ok tt) × (view (start w).1 ≡ view w))
  unfolding start do_accept
  start_lem w = elim (Bool-cases (has_error ((p.listen w.acceptor).0))) [
    | inl e ↦ inr (rw (e, start) (λ q. cc), rw (e, start) refl)
    | inr e ↦ inl (rw (e, start) refl, rw (e, start) refl)
  ]

module _ {p : Platform} {S : Type 0} {look : World p → S} {P : S → Type 0}
    ⦃stands : Stands look P⦄ where
  pub Keeps-stop : Keeps {p = p} look P stop
  unfolding stop on_acceptor
  Keeps-stop =
      Keeps-bind (on_acceptor p.close_acceptor) _
        (record { at = λ w h. stands.rests w _ refl refl refl h }) Keeps-check
