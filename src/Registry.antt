-- ===== src/Registry.antt =====
-- include/net/core/ClientPolicyRegistry.hpp and src/net/core/ClientPolicyRegistry.cpp: the names of
-- the agents, and the handler of each.
pub mod Agents
use mathlib.Core.Option
use kuro_net.Prelude.{
  ℕ, ◌+◌, ◌-◌, ◌≡◌, Bool, true, false, Option, none, some, List, [], ◌∷◌, ◌++◌, Eq, nat_eq, list_eq,
  length, drop, ◌==◌, if◌then◌else◌, ◌↔◌, refl, arith,
}
use kuro_net.Prelude.Map.{lookup, emplace}
use kuro_net.Text.{Bytes, codes, find_from, rfind, substr}
use kuro_net.Logger.{debug}
use kuro_net.Platform.{Platform}
use kuro_net.Exec.{Exec, Outcome, ok, throw, Exception, out_of_range, ◌>>=◌, ◌>>◌, pure, modify}
use kuro_net.Dispatcher.{agent_type_key}
use kuro_net.World.{
  World, AgentType, unknown, kuro_web, kuro_desktop, kuro_mobile, custom_client, Handler,
  unknown_handler, web_handler, desktop_handler, mobile_handler, custom_handler, Registry, log,
}

-- The value of an enumerator, by which the container compares and hashes its keys.
abbrev ordinal : AgentType → ℕ
ordinal unknown = 0
ordinal kuro_web = 1
ordinal kuro_desktop = 2
ordinal kuro_mobile = 3
ordinal custom_client = 4

abbrev agent_beq : AgentType → AgentType → Bool
agent_beq a b = ordinal a == ordinal b

pub agent_beq_iff : (a b : AgentType) → (agent_beq a b ≡ true) ↔ (a ≡ b)
agent_beq_iff a b = (ground arith, ground arith)

instance abbrev pub agent_eq : Eq AgentType
agent_eq = record { same = agent_beq; same_iff = agent_beq_iff }

abbrev pub no_agents : Registry
no_agents = record { agents = []; protocols = [] }

module _ {p : Platform} where
  abbrev with_registry : (Registry → Registry) → Exec (World p) (Unit {0})
  with_registry f w =
      (ok tt, record w { manager = record (w.manager) { registry = f w.manager.registry } })

  abbrev emplace_agent : Bytes → AgentType → Exec (World p) (Unit {0})
  emplace_agent name agent = with_registry λ r. record r { agents = emplace name agent r.agents }

  unfoldable pub agents_init : Exec (World p) (Unit {0})
  agents_init = do
    log debug (codes "Start agents initialization")
    emplace_agent (codes "unknown") unknown
    emplace_agent (codes "web_client") kuro_web
    emplace_agent (codes "desktop_app") kuro_desktop
    emplace_agent (codes "mobile_app") kuro_mobile
    emplace_agent (codes "custom_client") custom_client
    log debug (codes "End agents initialization")

  -- The constructors of the handlers, which `make_shared` runs.
  abbrev make_unknown_handler : Exec (World p) (Unit {0})
  make_unknown_handler = log debug (codes "Unknown handler ready")

  abbrev make_web_handler : Exec (World p) (Unit {0})
  make_web_handler = log debug (codes "Web handler ready")

  abbrev make_desktop_handler : Exec (World p) (Unit {0})
  make_desktop_handler = log debug (codes "Desktop handler ready")

  abbrev make_mobile_handler : Exec (World p) (Unit {0})
  make_mobile_handler = log debug (codes "Mobile handler ready")

  abbrev make_custom_handler : Exec (World p) (Unit {0})
  make_custom_handler = log debug (codes "Custom handler ready")

  abbrev emplace_protocol :
      AgentType → Handler → Exec (World p) (Unit {0}) → Exec (World p) (Unit {0})
  emplace_protocol agent handler make_handler = do
    make_handler
    with_registry λ r. record r { protocols = emplace agent handler r.protocols }

  unfoldable pub protocols_init : Exec (World p) (Unit {0})
  protocols_init = do
    log debug (codes "Start protocols initialization")
    emplace_protocol unknown unknown_handler make_unknown_handler
    emplace_protocol kuro_desktop desktop_handler make_desktop_handler
    emplace_protocol kuro_mobile mobile_handler make_mobile_handler
    emplace_protocol custom_client custom_handler make_custom_handler
    emplace_protocol kuro_web web_handler make_web_handler
    log debug (codes "End protocols initialization")

  -- The constructor of `ClientPolicyRegistry`, on the maps that are empty at first.
  unfoldable pub registry_init : Exec (World p) (Unit {0})
  unfolding agents_init protocols_init
  registry_init = do agents_init; protocols_init

-- `protocols.at(AgentType::Unknown)` throws where the key is missing.
at_unknown : Option Handler → Outcome Handler
at_unknown (some h) = ok h
at_unknown none = throw (out_of_range (codes "_Map_base::at"))

unfoldable pub eponymous_protocol : Registry → AgentType → Outcome Handler
unfolding at_unknown
eponymous_protocol r agent = elim (lookup agent r.protocols) [
  | some h ↦ ok h
  | none ↦ at_unknown (lookup unknown r.protocols)
]

-- A string made from a `const char*` ends before the first zero byte.
unfoldable pub c_str : Bytes → Bytes
c_str [] = []
c_str (c ∷ text) = let rest = c_str text in if c == 0 then [] else c ∷ rest

unfoldable pub agent_selecter : Registry → Bytes → AgentType
unfolding c_str
agent_selecter r agent = elim (lookup (c_str agent) r.agents) [ some a ↦ a | none ↦ unknown ]

unfoldable pub get_agent : Registry → Bytes → AgentType
get_agent r message = elim (rfind message agent_type_key) [
  | none ↦ unknown
  | some pos ↦
      let start = pos + length agent_type_key in
      let agent_str : Bytes = elim (find_from message (codes "\n") start) [
        | none ↦ drop start message
        | some e ↦ substr message start (e - start)
      ] in
      agent_selecter r agent_str
]

-- The two overloads of `create`.
abbrev pub create : Registry → AgentType → Outcome Handler
create r agent = eponymous_protocol r agent

abbrev pub create_for : Registry → Bytes → Outcome Handler
create_for r message = eponymous_protocol r (get_agent r message)
