-- ===== src/Tests/ProcessTests.antt =====
-- A history of the process in which a request is answered, a token is made, a client is approved, and the
-- chat reads and loses a client.
use kuro_net.Prelude.{List, [], ◌∷◌}
use kuro_net.Text.{Bytes, codes}
use kuro_net.Platform.{success, eof}
use kuro_net.Session.Valid.{IsValid}
use kuro_net.Process.{
  Event, accepted, requested, read, written, timed, token_commands, clients_commands, history,
}
use kuro_net.Process.Invariant.{history-IsValid}
use kuro_net.Tests.Sample.{client, world}
use kuro_net.Tests.SessionTests.{manager-IsValid}

abbrev request : Bytes
request =
    codes
      "auto\r\nLOGIN:ZXC\r\nMAX_MESSAGE_SIZE:16000\r\nAGENT_TYPE:desktop_app\r\nALLOW_RAW_TCP:1\r\n\r\n"

abbrev events : List Event
events =
    accepted success 4
    ∷ requested success 4 request 81
    ∷ token_commands (codes "token" ∷ codes "create" ∷ codes "-perm" ∷ [])
    ∷ clients_commands (codes "client" ∷ codes "approve" ∷ codes "w" ∷ codes "perm.x" ∷ [])
    ∷ timed
    ∷ read success (codes "c") (client (codes "c") 2) (codes "hello\n")
    ∷ written success (client (codes "d") 3)
    ∷ read eof (codes "c") (client (codes "c") 2) []
    ∷ []

history-IsValid_example : IsValid (history events world).manager
history-IsValid_example = history-IsValid events world manager-IsValid
