-- ===== src/Registry/Agents.antt =====
-- The registry that the constructor builds, and the handler that a request gets.
use kuro_net.Prelude.{
  ◌+◌, ◌≡◌, ◌⊎◌, refl, false, some, [], ◌∷◌, ◌++◌, nat_eq, list_eq, list_beq, length,
  drop-append_two, take-append, arith, list_beq_iff,
}
use kuro_net.Text.Find.{find_byte_after}
use kuro_net.Dispatcher.Fields.{add-sub_left}
use kuro_net.Prelude.Map.{lookup, emplace}
use kuro_net.Text.{Bytes, codes, find_from, rfind, elem}
use kuro_net.Logger.{Logger}
use kuro_net.Platform.{Platform}
use kuro_net.Exec.{ok}
use kuro_net.Dispatcher.{agent_type_key, get_agent_type}
use kuro_net.World.{
  World, AgentType, unknown, kuro_web, kuro_desktop, kuro_mobile, custom_client, Handler,
  unknown_handler, web_handler, desktop_handler, mobile_handler, custom_handler, Registry,
}
use kuro_net.Registry.{
  no_agents, registry_init, eponymous_protocol, agent_selecter, get_agent, c_str,
}

abbrev pub full_registry : Registry
full_registry = record {
  agents =
      (codes "custom_client", custom_client)
      ∷ (codes "mobile_app", kuro_mobile)
      ∷ (codes "desktop_app", kuro_desktop)
      ∷ (codes "web_client", kuro_web)
      ∷ (codes "unknown", unknown)
      ∷ [];
  protocols =
      (kuro_web, web_handler)
      ∷ (custom_client, custom_handler)
      ∷ (kuro_mobile, mobile_handler)
      ∷ (kuro_desktop, desktop_handler)
      ∷ (unknown, unknown_handler)
      ∷ [];
}

module _ {p : Platform} where
  abbrev pub set_registry : Registry → World p → World p
  set_registry r w = record w { manager = record (w.manager) { registry = r } }

  -- The constructor, run on maps that are empty, returns; it fills them, and apart from that
  -- changes the log only.
  pub registry_init_lem :
      (w : World p)
      → let start = set_registry no_agents w in
        (lg : Logger) × (registry_init start
          ≡ (ok tt, record (set_registry full_registry w) { logger = lg }))
  unfolding registry_init emplace list_beq
  registry_init_lem w = ((registry_init (set_registry no_agents w)).1.logger, refl)

-- Each agent has the handler whose own name is the agent's.
abbrev pub name_of : AgentType → Bytes
name_of unknown = codes "unknown"
name_of kuro_web = codes "web_client"
name_of kuro_desktop = codes "desktop_app"
name_of kuro_mobile = codes "mobile_app"
name_of custom_client = codes "custom_client"

abbrev pub handler_of : AgentType → Handler
handler_of unknown = unknown_handler
handler_of kuro_web = web_handler
handler_of kuro_desktop = desktop_handler
handler_of kuro_mobile = mobile_handler
handler_of custom_client = custom_handler

-- In the registry that the constructor builds, every agent type has its handler, so that no lookup
-- throws; the handler's own agent type is the agent's name, and that name selects the agent.
pub eponymous :
    (agent : AgentType)
    → (eponymous_protocol full_registry agent ≡ ok (handler_of agent))
      × (get_agent_type (handler_of agent) ≡ name_of agent)
      × (agent_selecter full_registry (name_of agent) ≡ agent)
unfolding eponymous_protocol get_agent_type agent_selecter lookup list_beq
eponymous unknown = (refl, refl, refl)
eponymous kuro_web = (refl, refl, refl)
eponymous kuro_desktop = (refl, refl, refl)
eponymous kuro_mobile = (refl, refl, refl)
eponymous custom_client = (refl, refl, refl)

-- A handler that a name selects bears that name (up to a zero byte), or is the one for unknown agents.
pub eponymous_name :
    (name : Bytes) (h : Handler)
    → eponymous_protocol full_registry (agent_selecter full_registry name) ≡ ok h
    → (get_agent_type h ≡ c_str name) ⊎ (h ≡ unknown_handler)
unfolding eponymous_protocol get_agent_type agent_selecter lookup
eponymous_name name h e = ground (
  arith,
  list_beq_iff (codes "custom_client") (c_str name),
  list_beq_iff (codes "mobile_app") (c_str name),
  list_beq_iff (codes "desktop_app") (c_str name),
  list_beq_iff (codes "web_client") (c_str name),
)

-- The agent of a request is named by the bytes between the last place of the key and the end of the
-- line.
pub get_agent_line :
    (r : Registry) (pre value rest : Bytes)
    → rfind (pre ++ (agent_type_key ++ (value ++ b'\n' ∷ rest))) agent_type_key ≡ some (length pre)
    → elem b'\n' value ≡ false
    → get_agent r (pre ++ (agent_type_key ++ (value ++ b'\n' ∷ rest))) ≡ agent_selecter r value
unfolding get_agent find_from
get_agent_line r pre value rest last one_line = rw (
  last,
  get_agent,
  drop-append_two pre agent_type_key (value ++ b'\n' ∷ rest),
  find_byte_after b'\n' value rest one_line,
  drop-append_two pre agent_type_key (value ++ b'\n' ∷ rest),
  add-sub_left (length pre + length agent_type_key) (length value),
  take-append value,
)
