-- ===== src/Server/Metadata.antt =====
-- `parse_client_metadata`, by the login of the request.
use kuro_net.Prelude.{◌+◌, ◌≡◌, ◌≢◌, refl, false, [], ◌++◌, ◌∷◌}
use kuro_net.Text.{Bytes, codes, is_empty}
use kuro_net.Logger.{Logger}
use kuro_net.Platform.{Platform}
use kuro_net.Random.Shape.{random_text, random_generate_str_lem}
use kuro_net.Exec.{ok, throw, runtime_error, ◌>>=◌}
use kuro_net.Dispatcher.{fill_up_field, login_key, get_agent_type, parse_client_metadata}
use kuro_net.World.{World, Client, Handler}

pub is_empty_ne : (text : Bytes) → text ≢ [] → is_empty text ≡ false
is_empty_ne [] h = absurd (h refl)
is_empty_ne (c ∷ text) h = refl

module _ {p : Platform} (handler : Handler) (message : Bytes) (client : Client) (w : World p) where
  -- A request with a login names the client, and changes the log alone.
  pub parse_client_metadata_named :
      fill_up_field message login_key ≢ []
      → (lg : Logger) × (parse_client_metadata handler message client w ≡ (
        ok (
          record client {
            login = fill_up_field message login_key;
            agent_type = get_agent_type handler;
          },
          ok tt,
        ),
        record w { logger = lg },
      ))
  unfolding parse_client_metadata
  parse_client_metadata_named named = (
    (parse_client_metadata handler message client w).1.logger,
    rw (is_empty_ne (fill_up_field message login_key) named, parse_client_metadata) refl,
  )

  -- A request with no login throws, and changes the log and the generator alone.
  pub parse_client_metadata_nameless :
      fill_up_field message login_key ≡ []
      → (lg : Logger) × (c : Client) × (parse_client_metadata handler message client w ≡ (
        ok (c, throw (runtime_error (codes "Matadata parse error"))),
        record w { logger = lg; draws = w.draws + 5 },
      ))
  unfolding parse_client_metadata
  parse_client_metadata_nameless nameless = (
    (parse_client_metadata handler message client w).1.logger,
    record client { login = codes "member_" ++ random_text p 5 w.draws },
    rw (nameless, parse_client_metadata, random_generate_str_lem 5 w, ◌>>=◌) refl,
  )
