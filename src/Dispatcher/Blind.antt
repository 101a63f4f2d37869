-- ===== src/Dispatcher/Blind.antt =====
-- What a handler reads from a request does not depend on the order of the maps.
use kuro_net.Prelude.{◌++◌}
use kuro_net.Text.{Bytes, codes, is_empty}
use kuro_net.Logger.{debug, error}
use kuro_net.Platform.{Platform}
use kuro_net.Exec.{Outcome, ok, throw, undefined, invalid_argument, runtime_error}
use kuro_net.Random.{random_generate_str}
use kuro_net.World.{Client, Handler, log, what}
use kuro_net.World.Reorder.{Blind, Blind-pure, Blind-bind, Blind-then, Blind-if}
use kuro_net.Session.Blind.{Blind-log, Blind-random_generate_str}
use kuro_net.Dispatcher.{
  try_metadata, catch_metadata, parse_client_metadata, fill_up_field, login_key, get_agent_type,
}

module _ {p : Platform} where
  Blind-catch_metadata : (r : Outcome (Unit {0})) → Blind {p = p} (catch_metadata r)
  unfolding catch_metadata
  Blind-catch_metadata (ok u) = Blind-pure (ok u)
  Blind-catch_metadata undefined = Blind-pure undefined
  Blind-catch_metadata (throw e) =
      Blind-then (log error (codes "Metadata error: " ++ what p e)) _ (Blind-log error _)
        (Blind-pure (throw (runtime_error (codes "Matadata parse error"))))

  Blind-try_metadata :
      (handler : Handler) (message : Bytes) (client : Client)
      → Blind {p = p} (try_metadata handler message client)
  unfolding try_metadata
  Blind-try_metadata handler message client =
      let login = fill_up_field message login_key in
      Blind-if (is_empty login) _ _
        (Blind-bind (random_generate_str 5) _ (Blind-random_generate_str 5) λ suffix. Blind-pure (
          record client { login = codes "member_" ++ suffix },
          throw (invalid_argument (codes "Empty LOGIN")),
        ))
        (Blind-then (log debug _) _ (Blind-log debug _) (
          Blind-pure (record client { login = login; agent_type = get_agent_type handler }, ok tt)))

  pub Blind-parse_client_metadata :
      (handler : Handler) (message : Bytes) (client : Client)
      → Blind {p = p} (parse_client_metadata handler message client)
  unfolding parse_client_metadata
  Blind-parse_client_metadata handler message client =
      Blind-bind (try_metadata handler message client) _ (Blind-try_metadata handler message client)
        λ tried.
          Blind-bind (catch_metadata tried.1) _ (Blind-catch_metadata tried.1)
            λ caught. Blind-pure (tried.0, caught)
