-- ===== src/Tests/ConfigTests.antt =====
-- Instances of the theorems on the configuration, with a file system of two files and a small JSON.
use kuro_net.Logger.Clock.{current_time}
use kuro_net.Prelude.{
  ℕ, ◌≡◌, ◌↔◌, refl, Bool, true, false, inr, Option, none, some, List, [], ◌∷◌, nat_eq, list_eq,
  ◌==◌, if◌then◌else◌, list_beq, All,
}
use kuro_net.Prelude.Int.{pos}
use kuro_net.Text.{Bytes, codes, elem, to_string, digits_onto}
use kuro_net.Tokens.{to_string_int}
use kuro_net.Logger
use kuro_net.Logger.{error, debug}
use kuro_net.Exec.{Outcome, ok, throw, runtime_error}
use kuro_net.Config.{
  Environment, System, parts_of, text_of, not_found, ensure_config, get_parameter_value_str,
  get_parameter_value_int,
}
use kuro_net.Config.Parts.{join, IsDotless, parts_of_lem}
use kuro_net.Config.Lookup.{
  Leads, here, through, get_parameter_value_str_iff, get_parameter_value_str_missing,
}
use kuro_net.Config.Number.{get_parameter_value_int-to_string_int}
use kuro_net.Config.Example.{config_file_example, config_file_example_lem, watched}
use kuro_net.Config.File.{Ensures, ensure_config-Ensures}

mutual
  data Value : Type 0 where
    text : Bytes → Value
    num : ℕ → Value
    obj : Fields → Value

  data Fields : Type 0 where
    end : Fields
    field : Bytes → Value → Fields → Fields

abbrev find_field : Bytes → Fields → Option Value
find_field key end = none
find_field key (field name value fields) =
    let rest = find_field key fields in if name == key then some value else rest

abbrev has_field : Option Value → Bool
has_field none = false
has_field (some _) = true

abbrev is_member : Bytes → Value → Outcome Bool
is_member key (obj fields) = ok (has_field (find_field key fields))
is_member key _ = throw (runtime_error (codes "requires objectValue"))

abbrev value_of : Option Value → Outcome Value
value_of none = throw (runtime_error (codes "null"))
value_of (some v) = ok v

abbrev member : Bytes → Value → Outcome Value
member key (obj fields) = value_of (find_field key fields)
member key _ = throw (runtime_error (codes "requires objectValue"))

abbrev is_string : Value → Bool
is_string (text _) = true
is_string _ = false

abbrev as_string : Value → Outcome Bytes
as_string (text t) = ok t
as_string _ = throw (runtime_error (codes "not convertible"))

abbrev write_string : Value → Bytes
write_string (num n) = to_string n
write_string _ = codes "..."

-- Whether `config.json` is there, and whether the template is.
record Files : Type 0 where
  config : Bool
  template : Bool

abbrev exists : Bytes → Files → Outcome Bool
exists path files = ok (if path == codes "config.json" then files.config else files.template)

abbrev server : Value
server = obj (field (codes "port") (num 12345) (field (codes "key") (text (codes "auto")) end))

abbrev security : Value
security = obj (field (codes "secret_key") (text (codes "abc")) end)

abbrev root : Value
root = obj (field (codes "server") server (field (codes "security") security end))

abbrev sample : Environment
sample = record {
  Files = Files;
  exists = exists;
  copy = λ source target files. (ok tt, record files { config = true });
  content = λ path files. if files.config then some (codes "{}") else none;
  Value = Value;
  parse = λ raw. ok (inr root);
  is_member = is_member;
  member = member;
  is_string = is_string;
  as_string = as_string;
  write_string = write_string;
  config_file_path = codes "config.json";
  default_config_file_path = codes "config.default.json";
  source_file = codes "SystemConfig.hpp";
  clock = record { now = λ n. n; put_time = λ n. codes "12:00" };
}

abbrev fresh : System sample
fresh = record {
  conf_file_exist = false;
  conf_path = codes "config.json";
  files = record { config = false; template = true };
  logger = Logger.initial;
}

abbrev seen : System sample
seen = record fresh { conf_file_exist = true; files = record { config = true; template = true } }

dotless : All IsDotless (codes "server" ∷ codes "port" ∷ [])
unfolding elem
dotless = (refl, (refl, tt))

parts_of_lem_example :
    (part : Bytes) × (parts : List Bytes) × (parts_of (codes "server.port") ≡ some (part ∷ parts))
    × All IsDotless (part ∷ parts)
    × (join part parts ≡ codes "server.port")
parts_of_lem_example = parts_of_lem (codes "server.port")

get_parameter_value_str_iff_example :
    (get_parameter_value_str {env = sample} (join (codes "server") (codes "port" ∷ [])) seen
      ≡ (ok (codes "12345"), seen))
    ↔ ((seen ≡ seen)
        × ((t : Value) × Leads sample root (codes "server" ∷ codes "port" ∷ []) t
            × (text_of sample t ≡ ok (codes "12345"))))
get_parameter_value_str_iff_example =
    get_parameter_value_str_iff seen (codes "{}") root refl refl refl (codes "server")
      (codes "port" ∷ []) dotless (codes "12345") seen

port-Leads : Leads sample root (codes "server" ∷ codes "port" ∷ []) (num 12345)
unfolding list_beq
port-Leads = through refl refl (through refl refl here)

get_parameter_value_int-to_string_int_example :
    get_parameter_value_int {env = sample} (join (codes "server") (codes "port" ∷ [])) seen
    ≡ (ok (pos 12345), seen)
unfolding text_of to_string_int to_string
get_parameter_value_int-to_string_int_example =
    get_parameter_value_int-to_string_int seen (codes "{}") root (num 12345) (codes "server")
      (codes "port" ∷ []) (pos 12345) refl refl refl dotless port-Leads refl

-- The example of the README.
readme_port :
    get_parameter_value_str {env = sample} (join (codes "server") (codes "port" ∷ [])) seen
    ≡ (ok (codes "12345"), seen)
unfolding text_of to_string digits_onto
readme_port =
    (get_parameter_value_str_iff seen (codes "{}") root refl refl refl (codes "server")
        (codes "port" ∷ []) dotless (codes "12345") seen).1
      (refl, (num 12345, port-Leads, refl))

get_parameter_value_str_missing_example :
    get_parameter_value_str {env = sample} (join (codes "server") (codes "host" ∷ [])) seen ≡ (
      throw (runtime_error (codes "KuroNet System Error")),
      record seen {
        logger =
            Logger.log
              (current_time sample.clock)
              error
              (not_found sample (codes "host"))
              seen.logger;
      },
    )
unfolding list_beq elem
get_parameter_value_str_missing_example =
    get_parameter_value_str_missing seen (codes "{}") root refl refl refl (codes "server")
      (codes "host" ∷ []) (refl, (refl, tt)) (codes "server" ∷ []) [] (codes "host") _ refl
      (through refl refl here) refl

ensure_config-Ensures_example : Ensures sample fresh (ensure_config fresh)
ensure_config-Ensures_example = ensure_config-Ensures sample fresh refl

key-Leads : Leads sample root (codes "security" ∷ codes "secret_key" ∷ []) (text (codes "abc"))
unfolding list_beq
key-Leads = through refl refl (through refl refl here)

-- The file is there, and no call has looked for it.
abbrev unseen : System sample
unseen = record fresh { files = record { config = true; template = true } }

config_file_example_lem_example :
    let opened = watched (record unseen { logger = Logger.set_level debug unseen.logger }) in
    config_file_example unseen ≡ (
      ok tt,
      record opened {
        logger =
            Logger.log
              (current_time sample.clock)
              debug
              (codes "abc")
              (Logger.log (current_time sample.clock) debug (codes "12345") opened.logger);
      },
    )
unfolding text_of to_string_int to_string list_beq
config_file_example_lem_example =
    config_file_example_lem unseen (codes "{}") root (num 12345) (text (codes "abc")) (pos 12345)
      (codes "abc") refl refl refl refl port-Leads refl key-Leads refl
