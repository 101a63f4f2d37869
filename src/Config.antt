-- ===== src/Config.antt =====
-- include/core/System/SystemConfig.hpp: a parameter of the configuration file, found by a path of
-- names. The file system, the JSON library, the macros of the build and the clock are one parameter.
pub mod Parts
pub mod File
pub mod Lookup
pub mod Number
pub mod Example
use kuro_net.Logger.Clock.{Clock, current_time}
use kuro_net.Prelude.{
  ℕ, zero, suc, ◌+◌, ◌-◌, Bool, true, false, not, ◌⊎◌, inl, inr, Option, none, some, List, [], ◌∷◌,
  ◌++◌, if◌then◌else◌, length, drop,
}
use kuro_net.Prelude.Int.{ℤ}
use kuro_net.Text.{Bytes, codes, find_from, substr, to_string}
use kuro_net.Logger.{Logger, Level, debug, warning, error}
use kuro_net.Logger
use kuro_net.Exec.{
  Exec, Outcome, ok, throw, undefined, runtime_error, ◌>>=◌, ◌>>◌, pure, raise, gets, lift,
}
use kuro_net.Tokens.Stoi.{stoi}

-- What the class calls and does not implement.
pub record Environment : Type 1 where
  -- The state of the file system. `exists` and `copy` throw where the system reports an error.
  pub Files : Type 0
  pub exists : Bytes → Files → Outcome Bool
  pub copy : Bytes → Bytes → Files → Outcome (Unit {0}) × Files
  -- The content that an `std::ifstream` reads, if it opens.
  pub content : Bytes → Files → Option Bytes
  -- `Json::Value`. The parser gives its errors or a value; the functions throw where the value is
  -- of a kind that they do not take.
  pub Value : Type 0
  pub parse : Bytes → Outcome (Bytes ⊎ Value)
  pub is_member : Bytes → Value → Outcome Bool
  pub member : Bytes → Value → Outcome Value
  pub is_string : Value → Bool
  pub as_string : Value → Outcome Bytes
  pub write_string : Value → Bytes
  -- `CONFIG_FILE_PATH`, `DEFAULT_CONFIG_FILE_PATH` and `__FILE__`.
  pub config_file_path : Bytes
  pub default_config_file_path : Bytes
  pub source_file : Bytes
  -- The system clock.
  pub clock : Clock

-- The instance of the class, the files, and the log.
pub record System (env : Environment) : Type 0 where
  pub conf_file_exist : Bool
  pub conf_path : Bytes
  pub files : env.Files
  pub logger : Logger

-- The loop that splits a parameter at its dots, from `start` on. `none` means that the fuel ran out.
pub parts_from : ℕ → Bytes → ℕ → Option (List Bytes)
parts_from zero param start = none
parts_from (suc fuel) param start = elim (find_from param (b'.' ∷ []) start) [
  | none ↦ some (drop start param ∷ [])
  | some end ↦ elim (parts_from fuel param (end + 1)) [
    | none ↦ none
    | some parts ↦ some (substr param start (end - start) ∷ parts)
  ]
]

-- The loop takes a byte of the text at least in each round.
unfoldable pub parts_of : Bytes → Option (List Bytes)
unfolding parts_from
parts_of param = parts_from (length param + 1) param 0

-- The message on a part that is missing, with `__LINE__`.
abbrev pub not_found : Environment → Bytes → Bytes
not_found env part =
    env.source_file
    ++ (codes ": on line " ++ (to_string 97 ++ (codes ": Param not foud: " ++ part)))

-- The text of the value at the end of the path.
unfoldable pub text_of : (env : Environment) → env.Value → Outcome Bytes
text_of env value = if env.is_string value then env.as_string value else ok (env.write_string value)

module _ {env : Environment} where
  abbrev pub log : Level → Bytes → Exec (System env) (Unit {0})
  log level message s =
      (ok tt, record s { logger = Logger.log (current_time env.clock) level message s.logger })

  set_conf_path : Bytes → Exec (System env) (Unit {0})
  set_conf_path path s = (ok tt, record s { conf_path = path })

  set_conf_file_exist : Exec (System env) (Unit {0})
  set_conf_file_exist s = (ok tt, record s { conf_file_exist = true })

  abbrev exists : Bytes → Exec (System env) Bool
  exists path s = (env.exists path s.files, s)

  copy_files : Bytes → Bytes → Exec (System env) (Unit {0})
  copy_files source target s =
      let (done, files) = env.copy source target s.files in (done, record s { files = files })

  pub copy_config_json_with_default : Exec (System env) (Unit {0})
  unfolding copy_files
  copy_config_json_with_default = do
    found ← exists env.default_config_file_path
    if not found then raise (runtime_error (codes "Missing config.default.json!")) else pure tt
    log warning (codes "Created new config.json from template")
    path ← gets λ s. s.conf_path
    copy_files env.default_config_file_path path

  pub config_json_is_exist : Exec (System env) (Unit {0})
  unfolding set_conf_path set_conf_file_exist copy_config_json_with_default
  config_json_is_exist = do
    set_conf_path env.config_file_path
    log debug (codes "Watch in " ++ env.config_file_path)
    found ← exists env.config_file_path
    if found then set_conf_file_exist else (copy_config_json_with_default >> set_conf_file_exist)

  assert_seen : Exec (System env) (Unit {0})
  assert_seen = do
    seen ← gets λ s. s.conf_file_exist
    if seen
        then pure tt
        else raise (runtime_error (codes "Config file not found and can't be created"))

  -- The part of `get_parameter_value_str` that sees to the file.
  pub ensure_config : Exec (System env) (Unit {0})
  unfolding config_json_is_exist assert_seen
  ensure_config = do
    seen ← gets λ s. s.conf_file_exist
    if seen then pure tt else (config_json_is_exist >> assert_seen)

  -- The file as a JSON value.
  pub read_root : Exec (System env) env.Value
  read_root s = elim (env.content s.conf_path s.files) [
    | none ↦ (throw (runtime_error (codes "Can't open config file")), s)
    | some text ↦
        (lift (env.parse text) >>= λ (parsed : Bytes ⊎ env.Value). elim parsed [
          | inl errs ↦ raise (runtime_error (codes "JSON parse error: " ++ errs))
          | inr root ↦ pure root
        ])
          s
  ]

  -- A part that is no member of the value.
  missing : Bytes → Exec (System env) env.Value
  missing part = do
    log error (not_found env part)
    raise (runtime_error (codes "KuroNet System Error"))

  -- The loop over the parts, with `current`.
  pub descend : List Bytes → env.Value → Exec (System env) env.Value
  unfolding missing
  descend [] current = pure current
  descend (part ∷ parts) current = do
    found ← lift (env.is_member part current)
    if found then (do next ← lift (env.member part current); descend parts next) else missing part

  follow : Option (List Bytes) → env.Value → Exec (System env) env.Value
  unfolding descend
  follow none root = lift undefined
  follow (some parts) root = descend parts root

  unfoldable pub get_parameter_value_str : Bytes → Exec (System env) Bytes
  unfolding follow
  get_parameter_value_str param = do
    ensure_config
    root ← read_root
    current ← follow (parts_of param) root
    lift (text_of env current)

  unfoldable pub get_parameter_value_int : Bytes → Exec (System env) ℤ
  get_parameter_value_int param = do root ← get_parameter_value_str param; lift (stoi root)
