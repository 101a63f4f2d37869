-- ===== src/Server/Answer.antt =====
-- `answer` on each of its branches, over the registry that the constructor builds.
use kuro_net.Logger.Clock.{current_time}
use kuro_net.Prelude.{
  ℕ, ◌+◌, ◌≡◌, ◌≢◌, ◌∙◌, ap, true, false, [], none, some, arith, ◌==◌, nat_eq, list_eq,
}
use kuro_net.Text.{Bytes, codes, rfind}
use kuro_net.Logger.{Logger, debug, error}
use kuro_net.Logger
use kuro_net.Platform.{Platform}
use kuro_net.Exec.{ok, throw, runtime_error}
use kuro_net.Dispatcher.{fill_up_field, login_key, get_agent_type, valid_request}
use kuro_net.Registry.{get_agent, agent_eq, agent_beq_iff, eponymous_protocol}
use kuro_net.Registry.Agents.{full_registry, handler_of, eponymous}
use kuro_net.Session.{add_client, auto_approve_client, literal}
use kuro_net.Server.{answer, refuse, auto_key}
use kuro_net.Server.Metadata.{parse_client_metadata_named, parse_client_metadata_nameless}
use kuro_net.World.{World, Client, AgentType, unknown}

agent_beq_ne : (a : AgentType) → a ≢ unknown → (a == unknown) ≡ false
agent_beq_ne a h = ground (arith, agent_beq_iff a unknown)

-- The agent of a request, in the registry that the constructor builds.
abbrev pub agent : Bytes → AgentType
agent message = get_agent full_registry message

-- The client of a request before its metadata are read, and after.
abbrev unnamed_client : ℕ → Bytes → Client
unnamed_client socket id = record {
  socket = socket;
  id = id;
  login = [];
  token = [];
  agent_type = [];
}

abbrev pub named_client : ℕ → Bytes → Bytes → Client
named_client socket message id = record {
  socket = socket;
  id = id;
  login = fill_up_field message login_key;
  token = [];
  agent_type = get_agent_type (handler_of (agent message));
}

module _ {p : Platform} (socket : ℕ) (message : Bytes) (w : World p)
    (full : w.manager.registry ≡ full_registry) where
  creates :
      eponymous_protocol w.manager.registry (get_agent w.manager.registry message)
      ≡ ok (handler_of (agent message))
  creates = rw full ((eponymous (agent message)).0)

  known : agent message ≢ unknown → (get_agent w.manager.registry message == unknown) ≡ false
  known h = rw full (agent_beq_ne (agent message) h)

  -- The log of a request that is welcome.
  abbrev pub welcome_log : Bytes → fill_up_field message login_key ≢ [] → Logger
  welcome_log id named =
      Logger.log (current_time p.clock) debug (get_agent_type (handler_of (agent message))) (
        (parse_client_metadata_named (handler_of (agent message)) message (unnamed_client socket id)
          w named).0)

  pub answer_automatic :
      (id : Bytes) (i : ℕ)
      → valid_request message ≡ true
      → agent message ≢ unknown
      → (named : fill_up_field message login_key ≢ []) → rfind message auto_key ≡ some i
      → answer socket message id w
        ≡ auto_approve_client
            (named_client socket message id)
            (record w { logger = welcome_log id named })
  unfolding answer
  answer_automatic id i valid is_known named auto = rw (
    creates,
    answer,
    valid,
    known is_known,
    (parse_client_metadata_named (handler_of (agent message)) message (unnamed_client socket id) w
        named).1,
    auto,
  )

  pub answer_manual :
      (id : Bytes)
      → valid_request message ≡ true
      → agent message ≢ unknown
      → (named : fill_up_field message login_key ≢ []) → rfind message auto_key ≡ none
      → answer socket message id w
        ≡ add_client (named_client socket message id) (record w { logger = welcome_log id named })
  unfolding answer
  answer_manual id valid is_known named manual = rw (
    creates,
    answer,
    valid,
    known is_known,
    (parse_client_metadata_named (handler_of (agent message)) message (unnamed_client socket id) w
        named).1,
    manual,
  )

  pub answer_nameless :
      (id : Bytes)
      → valid_request message ≡ true
      → agent message ≢ unknown
      → fill_up_field message login_key ≡ []
      → (lg : Logger) × (answer socket message id w ≡ (
        throw (runtime_error (codes "Matadata parse error")),
        record w { logger = lg; draws = w.draws + 5 },
      ))
  unfolding answer
  answer_nameless id valid is_known nameless =
      let (lg, c, e) =
        parse_client_metadata_nameless (handler_of (agent message)) message
          (unnamed_client socket id) w nameless in
      (lg, rw (creates, answer, valid, known is_known, e))

  pub answer_invalid :
      (id : Bytes)
      → valid_request message ≡ false
      → answer socket message id w ≡ refuse socket (literal "INVALID REQUEST FORMAT\n") w
  unfolding answer
  answer_invalid id invalid = rw (creates, answer, invalid)

  pub answer_unknown :
      (id : Bytes)
      → valid_request message ≡ true
      → agent message ≡ unknown
      → answer socket message id w ≡ refuse socket (literal "INVALID AGENT TYPE\n") w
  unfolding answer
  answer_unknown id valid e =
      rw (creates, answer, valid, ap (λ a. a == unknown) (ap (λ r. get_agent r message) full ∙ e))
