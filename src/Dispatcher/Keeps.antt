-- ===== src/Dispatcher/Keeps.antt =====
-- The reading of a client's metadata changes the log and the generator alone.
use kuro_net.Prelude.{nat_eq, list_eq}
use kuro_net.Text.{Bytes, is_empty}
use kuro_net.Logger.{debug, error}
use kuro_net.Platform.{Platform}
use kuro_net.Random.{random_generate_str}
use kuro_net.Exec.{Outcome, ok, throw, undefined}
use kuro_net.World.{World, Client, Handler, log}
use kuro_net.Dispatcher.{
  try_metadata, catch_metadata, parse_client_metadata, fill_up_field, login_key,
}
use kuro_net.Session.Keeps.{
  Keeps, Keeps-pure, Keeps-log, Keeps-bind, Keeps-then, Keeps-if, Keeps-random_generate_str, Stands,
}

module _ {p : Platform} {S : Type 0} {look : World p → S} {P : S → Type 0}
    ⦃stands : Stands look P⦄ where
  Keeps-try_metadata :
      (handler : Handler) (message : Bytes) (client : Client)
      → Keeps {p = p} look P (try_metadata handler message client)
  unfolding try_metadata
  Keeps-try_metadata handler message client =
      Keeps-if (is_empty (fill_up_field message login_key)) _ _
        (Keeps-bind (random_generate_str 5) _ (Keeps-random_generate_str 5) λ suffix. Keeps-pure _)
        (Keeps-then (log debug _) _ (Keeps-log debug _) (Keeps-pure _))

  Keeps-catch_metadata : (r : Outcome (Unit {0})) → Keeps {p = p} look P (catch_metadata r)
  unfolding catch_metadata
  Keeps-catch_metadata (ok u) = Keeps-pure _
  Keeps-catch_metadata undefined = Keeps-pure _
  Keeps-catch_metadata (throw e) = Keeps-then (log error _) _ (Keeps-log error _) (Keeps-pure _)

  pub Keeps-parse_client_metadata :
      (handler : Handler) (message : Bytes) (client : Client)
      → Keeps {p = p} look P (parse_client_metadata handler message client)
  unfolding parse_client_metadata
  Keeps-parse_client_metadata handler message client =
      Keeps-bind (try_metadata handler message client) _ (Keeps-try_metadata handler message client)
        λ read.
          Keeps-bind (catch_metadata (read.1)) _ (Keeps-catch_metadata (read.1))
            λ r. Keeps-pure (read.0, r)
