-- ===== src/Tests/ServerTests.antt =====
-- Instances of the theorems on requests.
use kuro_net.Prelude.{◌≡◌, refl, true, false, none, [], inl, nat_eq, list_eq, list_beq}
use kuro_net.Prelude.Map.{lookup, emplace}
use kuro_net.Text.{Bytes, codes, rfind, find, find_from}
use kuro_net.Text.Find.{Contains→rfind}
use kuro_net.Exec.{ok, throw, runtime_error}
use kuro_net.World.{kuro_desktop, kuro_web}
use kuro_net.Dispatcher.{valid_request, fill_up_field, login_key}
use kuro_net.Registry.{get_agent, agent_selecter}
use kuro_net.Server.{on_message, auto_key}
use kuro_net.Server.Answer.{agent, named_client}
use kuro_net.Server.Requests.{
  new_id, on_message_automatic, on_message_manual, on_message_nameless, on_message_refused,
}
use kuro_net.Tests.Sample.{manager, world}

-- The request of the README, behind the removal of the carriage returns.
abbrev request : Bytes
request =
    codes "auto\nLOGIN:ZXC\nMAX_MESSAGE_SIZE:16000\nAGENT_TYPE:desktop_app\nALLOW_RAW_TCP:1\n\n"

abbrev quiet_request : Bytes
quiet_request =
    codes "LOGIN:ZXC\nMAX_MESSAGE_SIZE:16000\nAGENT_TYPE:web_client\nALLOW_RAW_TCP:1\n\n"

abbrev nameless_request : Bytes
nameless_request = codes "MAX_MESSAGE_SIZE:16000\nAGENT_TYPE:web_client\nALLOW_RAW_TCP:1\n\n"

request-agent : agent request ≡ kuro_desktop
unfolding get_agent rfind find_from agent_selecter lookup list_beq
request-agent = refl

request-valid : valid_request request ≡ true
unfolding valid_request fill_up_field find find_from kuro_net.Text.find_last_not_of
request-valid = refl

request-login : fill_up_field request login_key ≡ codes "ZXC"
unfolding fill_up_field find find_from kuro_net.Text.find_last_not_of
request-login = refl

on_message_automatic_example :
    let newcomer = named_client 4 request (new_id world) in
    ((on_message 4 request world).0 ≡ ok tt)
    × ((on_message 4 request world).1.manager
        ≡ record manager { clients = emplace (new_id world) newcomer manager.clients })
on_message_automatic_example =
    on_message_automatic 4 request world refl request-valid (λ e. cc request-agent)
      (λ e. cc request-login)
      (
        [],
        codes "\nLOGIN:ZXC\nMAX_MESSAGE_SIZE:16000\nAGENT_TYPE:desktop_app\nALLOW_RAW_TCP:1\n\n",
        refl,
      )
      refl

quiet-agent : agent quiet_request ≡ kuro_web
unfolding get_agent rfind find_from agent_selecter lookup list_beq
quiet-agent = refl

quiet-valid : valid_request quiet_request ≡ true
unfolding valid_request fill_up_field find find_from kuro_net.Text.find_last_not_of
quiet-valid = refl

quiet-login : fill_up_field quiet_request login_key ≡ codes "ZXC"
unfolding fill_up_field find find_from kuro_net.Text.find_last_not_of
quiet-login = refl

quiet-rfind : rfind quiet_request auto_key ≡ none
unfolding rfind
quiet-rfind = refl

on_message_manual_example :
    let newcomer = named_client 4 quiet_request (new_id world) in
    ((on_message 4 quiet_request world).0 ≡ ok tt)
    × ((on_message 4 quiet_request world).1.manager
        ≡ record manager { wait_clients = emplace (new_id world) newcomer manager.wait_clients })
on_message_manual_example =
    on_message_manual 4 quiet_request world refl quiet-valid (λ e. cc quiet-agent)
      (λ e. cc quiet-login) (λ c. Contains→rfind quiet_request auto_key c quiet-rfind)

nameless-agent : agent nameless_request ≡ kuro_web
unfolding get_agent rfind find_from agent_selecter lookup list_beq
nameless-agent = refl

nameless-valid : valid_request nameless_request ≡ true
unfolding valid_request fill_up_field find find_from kuro_net.Text.find_last_not_of
nameless-valid = refl

nameless-login : fill_up_field nameless_request login_key ≡ []
unfolding fill_up_field find find_from kuro_net.Text.find_last_not_of
nameless-login = refl

on_message_nameless_example :
    ((on_message 4 nameless_request world).0 ≡ throw (runtime_error (codes "Matadata parse error")))
    × ((on_message 4 nameless_request world).1.manager ≡ manager)
on_message_nameless_example =
    on_message_nameless 4 nameless_request world refl nameless-valid (λ e. cc nameless-agent)
      nameless-login

bare-invalid : valid_request (codes "auto\n\n") ≡ false
unfolding valid_request fill_up_field find find_from kuro_net.Text.find_last_not_of
bare-invalid = refl

on_message_refused_example : (on_message 4 (codes "auto\n\n") world).1.manager ≡ manager
on_message_refused_example = on_message_refused 4 (codes "auto\n\n") world refl (inl bare-invalid)
