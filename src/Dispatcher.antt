-- ===== src/Dispatcher.antt =====
-- include/net/Dispatcher/KuroNetClient.hpp and the classes derived from it under
-- include/net/Dispatcher/handlers: the fields of a request, its test, and the client's metadata.
pub mod Fields
pub mod Keeps
pub mod Blind
use kuro_net.Prelude.{
  ℕ, ◌+◌, ◌-◌, ◌*◌, ◌<◌, Bool, true, false, ◌&&◌, Option, none, some, List, [], ◌∷◌, ◌++◌, ltb,
  if◌then◌else◌, length, take,
}
use kuro_net.Text.{Bytes, codes, is_empty, find, find_from, find_last_not_of, substr}
use kuro_net.Logger.{Level, debug, error}
use kuro_net.Platform.{Platform}
use kuro_net.Random.{random_generate_str}
use kuro_net.Exec.{
  Exec, Outcome, ok, throw, undefined, Exception, invalid_argument, out_of_range, runtime_error,
  system_error, ◌>>=◌, ◌>>◌, pure,
}
use kuro_net.World.{
  World, Client, Handler, unknown_handler, web_handler, desktop_handler, mobile_handler,
  custom_handler, log, what,
}

-- The fields of a class, which its own virtual functions return.
pub record Policies : Type 0 where
  pub max_message_size : ℕ
  pub allow_raw_tcp : Bool
  pub agent_type : Bytes

abbrev pub unknown_policies : Policies
unknown_policies = record {
  max_message_size = 4096;
  allow_raw_tcp = true;
  agent_type = codes "unknown";
}

abbrev pub web_policies : Policies
web_policies = record {
  max_message_size = 1024 * 8;
  allow_raw_tcp = false;
  agent_type = codes "web_client";
}

abbrev pub desktop_policies : Policies
desktop_policies = record {
  max_message_size = 16384;
  allow_raw_tcp = true;
  agent_type = codes "desktop_app";
}

abbrev pub mobile_policies : Policies
mobile_policies = record {
  max_message_size = 4096;
  allow_raw_tcp = false;
  agent_type = codes "mobile_app";
}

abbrev pub custom_policies : Policies
custom_policies = record {
  max_message_size = 4096;
  allow_raw_tcp = false;
  agent_type = codes "custom_client";
}

-- The virtual functions of the object behind the base class.
abbrev pub policies : Handler → Policies
policies unknown_handler = unknown_policies
policies web_handler = web_policies
policies desktop_handler = desktop_policies
policies mobile_handler = mobile_policies
policies custom_handler = custom_policies

unfoldable pub get_max_message_size : Handler → ℕ
get_max_message_size handler = (policies handler).max_message_size

unfoldable pub get_allow_raw_tcp : Handler → Bool
get_allow_raw_tcp handler = (policies handler).allow_raw_tcp

unfoldable pub get_agent_type : Handler → Bytes
get_agent_type handler = (policies handler).agent_type

abbrev pub blanks : Bytes
blanks = codes " \r\n"

-- `value.erase(value.find_last_not_of(" \r\n") + 1)`, where `npos + 1` is 0.
unfoldable pub trim_right : Bytes → Bytes
trim_right value = elim (find_last_not_of value blanks) [
  | none ↦ []
  | some last ↦ take (last + 1) value
]

unfoldable pub fill_up_field : Bytes → Bytes → Bytes
unfolding trim_right
fill_up_field text key = elim (find text key) [
  | none ↦ []
  | some pos ↦
      let value_start = pos + length key in
      let line_end : ℕ = elim (find_from text (codes "\n") value_start) [
        | none ↦ length text
        | some e ↦ e
      ] in
      trim_right (substr text value_start (line_end - value_start))
]

abbrev pub agent_type_key : Bytes
agent_type_key = codes "AGENT_TYPE:"

abbrev pub max_message_size_key : Bytes
max_message_size_key = codes "MAX_MESSAGE_SIZE:"

abbrev pub allow_raw_tcp_key : Bytes
allow_raw_tcp_key = codes "ALLOW_RAW_TCP:"

abbrev pub login_key : Bytes
login_key = codes "LOGIN:"

unfoldable pub valid_request : Bytes → Bool
valid_request message =
    let agent_type = fill_up_field message agent_type_key in
    let max_message_size = fill_up_field message max_message_size_key in
    let allow_raw_tcp = fill_up_field message allow_raw_tcp_key in
    if ltb 0 (length agent_type) && ltb 0 (length max_message_size) && ltb 0 (length allow_raw_tcp)
    then true
    else false

module _ {p : Platform} where
  -- The `try` block. The client comes back also where the block throws.
  try_metadata : Handler → Bytes → Client → Exec (World p) (Client × Outcome (Unit {0}))
  try_metadata handler message client =
      let login = fill_up_field message login_key in
      let named : Exec (World p) (Client × Outcome (Unit {0})) = do
        let client' : Client = record client { login = login; agent_type = get_agent_type handler }
        log debug
            (codes "Parsed client: " ++ (login ++ (codes ", type: " ++ get_agent_type handler)))
        pure (client', ok tt)
      in let unnamed : Exec (World p) (Client × Outcome (Unit {0})) = do
        suffix ← random_generate_str 5
        pure (
          record client { login = codes "member_" ++ suffix },
          throw (invalid_argument (codes "Empty LOGIN")),
        )
        in if is_empty login then unnamed else named

  -- The handler of the `catch` clause.
  catch_metadata : Outcome (Unit {0}) → Exec (World p) (Outcome (Unit {0}))
  catch_metadata (ok u) = pure (ok u)
  catch_metadata undefined = pure undefined
  catch_metadata (throw e) = do
    log error (codes "Metadata error: " ++ what p e)
    pure (throw (runtime_error (codes "Matadata parse error")))

  unfoldable pub parse_client_metadata :
      Handler → Bytes → Client → Exec (World p) (Client × Outcome (Unit {0}))
  unfolding try_metadata catch_metadata
  parse_client_metadata handler message client = do
    (client', r) ← try_metadata handler message client
    r' ← catch_metadata r
    pure (client', r')

-- The message and the client's policies play no part in it.
unfoldable pub handle_response : Bytes → Client → Bytes → Bytes
handle_response message client response =
    codes "USER_ID:"
    ++ (client.id
        ++ (codes "\nAGENT_TYPE:"
            ++ (client.agent_type ++ (codes "\nCONTENT:" ++ (response ++ codes "\r\n\r\n")))))
