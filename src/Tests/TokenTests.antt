-- ===== src/Tests/TokenTests.antt =====
-- Instances of the theorems on the numbers and the time of tokens.
use kuro_net.Prelude.{◌≡◌, refl, nat_eq, list_eq, if◌then◌else◌}
use kuro_net.Prelude.Int.{pos, ◌*ℕ◌, fits_int}
use kuro_net.Text.{codes}
use kuro_net.Exec.{ok, undefined}
use kuro_net.Tokens.{to_string_int, set_time_token}
use kuro_net.Tokens.Bounds.{day, set_time_token-to_string_int}
use kuro_net.Tests.Sample.{world}

set_time_token-to_string_int_example :
    set_time_token (codes "-day") (to_string_int (pos 24856)) world ≡ (
      if fits_int (◌*ℕ◌ (pos 24856) 86400)
      then (ok tt, record world { token_time = ◌*ℕ◌ (pos 24856) 86400 })
      else (undefined, world))
set_time_token-to_string_int_example =
    set_time_token-to_string_int (codes "-day") 86400 (pos 24856) world (day refl refl) refl

too_many_days : set_time_token (codes "-day") (to_string_int (pos 24856)) world ≡ (undefined, world)
too_many_days = set_time_token-to_string_int_example
