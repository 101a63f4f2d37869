-- ===== src/Tests/ProgramTests.antt =====
-- Instances of the theorems on the example programs.
use kuro_net.Prelude.{◌≡◌, refl, true, false, [], ◌∷◌}
use kuro_net.Text.{codes, to_string}
use kuro_net.Logger.Clock.{current_time}
use kuro_net.Logger.{log_output, warning, error}
use kuro_net.Logger
use kuro_net.Logger.Filtering.{level_filtering, level_filtering_lem}
use kuro_net.Commands.Handler.{utf8}
use kuro_net.World.{World}
use kuro_net.Process.{happens, server_stops, token_commands}
use kuro_net.Process.Loop.{here, later, is_called, stops_server, gives_token}
use kuro_net.Programs.{initial, tcp_server_example, commands_example, chat_example, log_example}
use kuro_net.Programs.Runs.{IsRun, Serves, examples-Serves}
use kuro_net.Tests.Sample.{attributes, sample}

-- The operator makes a token, and somebody stops the server.
abbrev makes_token : World sample → World sample
makes_token = happens (token_commands (codes "token" ∷ codes "create" ∷ codes "-perm" ∷ []))

abbrev stops_it : World sample → World sample
stops_it = happens server_stops

makes_token-IsRun : IsRun makes_token
makes_token-IsRun w = later here (is_called (gives_token _) refl)

stops_it-IsRun : IsRun stops_it
stops_it-IsRun w = later here (is_called stops_server refl)

examples-Serves_example :
    Serves 1
      (tcp_server_example makes_token makes_token stops_it (initial {p = sample} false attributes))
    × Serves 1
        (commands_example makes_token makes_token stops_it (initial {p = sample} false attributes))
    × Serves 1 (
        chat_example makes_token makes_token makes_token stops_it
          (initial {p = sample} false attributes))
examples-Serves_example =
    examples-Serves makes_token makes_token makes_token stops_it false attributes makes_token-IsRun
      makes_token-IsRun makes_token-IsRun stops_it-IsRun

-- The error and the warning are both printed.
log_example_run :
    (log_example (initial {p = sample} false attributes)).1.logger.out
    ≡ log_output (codes "12:00.007") error (utf8 "Тест ошибки (должен быть красным)")
      ∷ log_output (codes "12:00.008") warning (utf8 "Тест предупреждения")
      ∷ []
unfolding log_example Logger.log Logger.set_level current_time to_string
log_example_run = refl

level_filtering_run : level_filtering (λ n. codes "12:00") Logger.initial ≡ true
level_filtering_run = level_filtering_lem (λ n. codes "12:00") Logger.initial
