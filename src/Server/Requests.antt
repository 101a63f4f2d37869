-- ===== src/Server/Requests.antt =====
-- What becomes of a client that connects: the outcome of `on_message` for each kind of request.
use kuro_net.Logger.Clock.{current_time}
use kuro_net.Prelude.{
  ℕ, ◌+◌, ◌≡◌, ◌≢◌, ◌⊎◌, refl, true, false, [], Bool-cases, Option-cases, inl, inr, nat_eq, list_eq,
}
use kuro_net.Prelude.Map.{emplace}
use kuro_net.Text.{Bytes, codes, rfind}
use kuro_net.Text.Find.{Contains, rfind→Contains, Contains→rfind}
use kuro_net.Logger.{Logger, debug, error}
use kuro_net.Logger
use kuro_net.Platform.{Platform, success}
use kuro_net.Random.{generate_id}
use kuro_net.Random.Shape.{random_text, random_generate_str_lem}
use kuro_net.Exec.{ok, throw, runtime_error}
use kuro_net.Dispatcher.{fill_up_field, login_key, valid_request}
use kuro_net.Registry.Agents.{full_registry}
use kuro_net.Session.{auto_approve_client, write, literal}
use kuro_net.Session.Keeps.{view-Stands}
use kuro_net.Session.Approval.{add_client_lem}
use kuro_net.Server.Keeps.{Keeps-refuse}
use kuro_net.Server.{on_message, answer, refuse, auto_key}
use kuro_net.Server.Answer.{
  agent, named_client, answer_automatic, answer_manual, answer_nameless, answer_invalid,
  answer_unknown,
}
use kuro_net.World.{World, unknown, view}

module _ {p : Platform} where
  -- The id that the next client gets.
  abbrev pub new_id : World p → Bytes
  new_id w = random_text p 16 w.draws

  -- The process behind the log entry of a message and the sixteen draws.
  abbrev begun : Bytes → World p → World p
  begun message w = record w {
    logger = Logger.log (current_time p.clock) debug message w.logger;
    draws = w.draws + 16;
  }

module _ {p : Platform} (socket : ℕ) (message : Bytes) (w : World p)
    (full : w.manager.registry ≡ full_registry) where
  on_message-answer :
      on_message socket message w ≡ answer socket message (new_id w) (begun message w)
  unfolding on_message generate_id
  on_message-answer = rw (random_generate_str_lem 16 _) refl

  -- A valid request of a known agent, with a login and with the word auto anywhere in it: if the
  -- write of the notice succeeds, the handler returns, and the client is put among the approved ones
  -- under the new id, with no token. The maps change in no other way.
  pub on_message_automatic :
      valid_request message ≡ true
      → agent message ≢ unknown
      → fill_up_field message login_key ≢ []
      → Contains message auto_key
      → (p.write (literal "You are auto approved") (w.sockets socket)).0 ≡ success
      → let client = named_client socket message (new_id w) in
        ((on_message socket message w).0 ≡ ok tt)
        × ((on_message socket message w).1.manager
            ≡ record (w.manager) { clients = emplace (new_id w) client w.manager.clients })
  unfolding auto_approve_client write
  on_message_automatic valid is_known named auto written =
      elim (Option-cases (rfind message auto_key)) [
        | inl e ↦ absurd (Contains→rfind message auto_key auto e)
        | inr (i, e) ↦
            rw
              (
                on_message-answer,
                answer_automatic socket message (begun message w) full (new_id w) i valid is_known
                    named e,
                written,
              )
              (refl, refl)
      ]

  -- A valid request of a known agent, with a login and without the word auto: the handler returns,
  -- and the client waits under the new id, if nobody waits under it yet. Nobody is approved.
  pub on_message_manual :
      valid_request message ≡ true
      → agent message ≢ unknown
      → fill_up_field message login_key ≢ []
      → ¬ Contains message auto_key
      → let client = named_client socket message (new_id w) in
        ((on_message socket message w).0 ≡ ok tt)
        × ((on_message socket message w).1.manager ≡ record (w.manager) {
          wait_clients = emplace (new_id w) client w.manager.wait_clients;
        })
  on_message_manual valid is_known named manual = elim (Option-cases (rfind message auto_key)) [
    | inl e ↦
        rw
          (
            on_message-answer,
            answer_manual socket message (begun message w) full (new_id w) valid is_known named e,
          )
          (add_client_lem (named_client socket message (new_id w)) _)
    | inr (i, e) ↦ absurd (manual (rfind→Contains message auto_key i e))
  ]

  -- A valid request of a known agent with no login: the handler throws, so that the exception leaves
  -- the event loop. The maps stay as they are.
  pub on_message_nameless :
      valid_request message ≡ true
      → agent message ≢ unknown
      → fill_up_field message login_key ≡ []
      → ((on_message socket message w).0 ≡ throw (runtime_error (codes "Matadata parse error")))
        × ((on_message socket message w).1.manager ≡ w.manager)
  on_message_nameless valid is_known nameless =
      let (lg, e) =
        answer_nameless socket message (begun message w) full (new_id w) valid is_known nameless in
      rw (on_message-answer, e) (refl, refl)

  refuse-manager : (text : Bytes) (v : World p) → (refuse socket text v).1.manager ≡ v.manager
  refuse-manager text v =
      (Keeps-refuse {look = view} {Q = λ u. u.manager ≡ v.manager} socket text).at v refl

  -- A request that is not valid, or of an agent that is not known, enters nobody anywhere, whether or
  -- not the socket can be written to and closed.
  pub on_message_refused :
      (valid_request message ≡ false) ⊎ (agent message ≡ unknown)
      → (on_message socket message w).1.manager ≡ w.manager
  on_message_refused (inl invalid) =
      rw
        (on_message-answer, answer_invalid socket message (begun message w) full (new_id w) invalid)
        (refuse-manager _ (begun message w))
  on_message_refused (inr e) = elim (Bool-cases (valid_request message)) [
    | inl valid ↦
        rw
          (
            on_message-answer,
            answer_unknown socket message (begun message w) full (new_id w) valid e,
          )
          (refuse-manager _ (begun message w))
    | inr invalid ↦
        rw
          (
            on_message-answer,
            answer_invalid socket message (begun message w) full (new_id w) invalid,
          )
          (refuse-manager _ (begun message w))
  ]
