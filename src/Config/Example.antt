-- ===== src/Config/Example.antt =====
-- examples/config_file_example.cpp.
use kuro_net.Logger.Clock.{current_time}
use kuro_net.Prelude.{
  ◌≡◌, ◌∙◌, ◌++◌, refl, true, false, some, inl, inr, Bool-cases, [], ◌∷◌, if◌then◌else◌,
}
use kuro_net.Prelude.Int.{ℤ, fits_int}
use kuro_net.Text.{Bytes, codes, elem}
use kuro_net.Logger.{debug, set_level, Logger}
use kuro_net.Logger
use kuro_net.Exec.{Exec, ok, throw, out_of_range, ◌>>=◌, ◌>>◌}
use kuro_net.Tokens.{to_string_int}
use kuro_net.Config.{
  Environment, System, log, text_of, ensure_config, config_json_is_exist, assert_seen,
  get_parameter_value_str, get_parameter_value_int,
}
use kuro_net.Config.Parts.{join}
use kuro_net.Config.Lookup.{Leads, get_parameter_value_str_iff}
use kuro_net.Config.Number.{get_parameter_value_int-to_string_int}

module _ {env : Environment} where
  choose_level : Exec (System env) (Unit {0})
  choose_level s = (ok tt, record s { logger = set_level debug s.logger })

  unfoldable pub config_file_example : Exec (System env) (Unit {0})
  unfolding choose_level
  config_file_example = do
    choose_level
    port ← get_parameter_value_int (codes "server.port")
    key ← get_parameter_value_str (codes "security.secret_key")
    log debug (to_string_int port)
    log debug key

  -- Behind a first call that finds the file.
  abbrev pub watched : System env → System env
  watched s = record s {
    conf_path = env.config_file_path;
    conf_file_exist = true;
    logger =
        Logger.log (current_time env.clock) debug (codes "Watch in " ++ env.config_file_path)
          s.logger;
  }

  first_ensure :
      (s : System env)
      → s.conf_file_exist ≡ false
      → env.exists env.config_file_path s.files ≡ ok true
      → ensure_config s ≡ (ok tt, watched s)
  unfolding ensure_config config_json_is_exist assert_seen
  first_ensure s unseen found = rw (ensure_config, unseen, found) refl

  -- A first call goes on as a call behind it would.
  first_call :
      (param : Bytes) (s : System env)
      → s.conf_file_exist ≡ false
      → env.exists env.config_file_path s.files ≡ ok true
      → get_parameter_value_str param s ≡ get_parameter_value_str param (watched s)
  unfolding get_parameter_value_str ensure_config
  first_call param s unseen found =
      rw (get_parameter_value_str, first_ensure s unseen found, ensure_config) refl

  first_int_call :
      (param : Bytes) (s : System env)
      → s.conf_file_exist ≡ false
      → env.exists env.config_file_path s.files ≡ ok true
      → get_parameter_value_int param s ≡ get_parameter_value_int param (watched s)
  unfolding get_parameter_value_int
  first_int_call param s unseen found =
      rw (get_parameter_value_int, first_call param s unseen found) refl

  -- With a file that no call has seen yet, that is there, opens and parses, where `server.port` leads to a
  -- number and `security.secret_key` to a value with a text: the program sees the file, with a line on
  -- where it looks, and logs the number and the text, one after the other, if the number fits an `int`;
  -- otherwise it throws behind the line on where it looks. It changes nothing else.
  pub config_file_example_lem :
      (s : System env) (raw : Bytes) (root t u : env.Value) (port : ℤ) (key : Bytes)
      → s.conf_file_exist ≡ false
      → env.exists env.config_file_path s.files ≡ ok true
      → env.content env.config_file_path s.files ≡ some raw
      → env.parse raw ≡ ok (inr root)
      → Leads env root (codes "server" ∷ codes "port" ∷ []) t
      → text_of env t ≡ ok (to_string_int port)
      → Leads env root (codes "security" ∷ codes "secret_key" ∷ []) u
      → text_of env u ≡ ok key
      → let opened = watched (record s { logger = set_level debug s.logger }) in
        config_file_example s ≡ (
          if fits_int port
          then (
            ok tt,
            record opened {
              logger =
                  Logger.log
                    (current_time env.clock)
                    debug
                    key
                    (Logger.log (current_time env.clock) debug (to_string_int port) opened.logger);
            },
          )
          else (throw (out_of_range (codes "stoi")), opened))
  unfolding config_file_example elem join
  config_file_example_lem s raw root t u port key unseen found content parsed port_leads port_told
        key_leads key_told =
      let levelled : System env = record s { logger = set_level debug s.logger } in
      let opened = watched levelled in
      let number : get_parameter_value_int (codes "server.port") levelled
          ≡ ((if fits_int port then ok port else throw (out_of_range (codes "stoi"))), opened) =
        first_int_call (codes "server.port") levelled unseen found
        ∙ get_parameter_value_int-to_string_int opened raw root t (codes "server")
            (codes "port" ∷ []) port refl content parsed (refl, (refl, tt)) port_leads port_told in
      let text : get_parameter_value_str (codes "security.secret_key") opened ≡ (ok key, opened) =
        (get_parameter_value_str_iff opened raw root refl content parsed (codes "security")
            (codes "secret_key" ∷ []) (refl, (refl, tt)) key opened).1
          (refl, (u, key_leads, key_told)) in
      elim (Bool-cases (fits_int port)) [
        | inl fits ↦ rw (number, fits) (rw text refl)
        | inr off ↦ rw (number, off) refl
      ]
