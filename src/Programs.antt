-- ===== src/Programs.antt =====
-- The example programs, examples/tcp_server_example.cpp, commands_example.cpp, chat_example.cpp
-- and log_example.cpp: each `main` up to the joins of its threads, as an action on the process. What the other threads do
-- meanwhile is an argument.
pub mod Runs
use kuro_net.Prelude.{ℕ, Bool, false, List, [], ◌∷◌, ◌++◌, if◌then◌else◌}
use kuro_net.Prelude.Int.{pos}
use kuro_net.Text.{Bytes, codes, to_string}
use kuro_net.Logger.{Level, debug, info, warning, error}
use kuro_net.Logger
use kuro_net.Platform.{Platform, no_attributes}
use kuro_net.Exec.{Exec, ok, ◌>>=◌, ◌>>◌, pure}
use kuro_net.Commands.Handler.{utf8}
use kuro_net.Registry.{registry_init}
use kuro_net.World.{World, Manager, Pending, log}
use kuro_net.Server
use kuro_net.Chat

module _ {p : Platform} where
  -- The process before `main`: no socket has been given out, and no map has an entry.
  abbrev pub initial : p.Acceptor → p.Tty → World p
  initial acceptor tty = record {
    sockets = λ n. p.fresh_socket;
    next_socket = 0;
    logger = Logger.initial;
    manager = record {
      clients = [];
      wait_clients = [];
      active_tokens = [];
      registry = record { agents = []; protocols = [] };
    };
    draws = 0;
    steady_reads = 0;
    token_time = pos 0;
    pending = [];
    token_command = [];
    clients_command = [];
    command_parts = [];
    chat_started = false;
    acceptor = acceptor;
    terminal = record { tty = tty; oldt = no_attributes; newt = no_attributes };
  }

  pub set_level : Level → Exec (World p) (Unit {0})
  set_level level w = (ok tt, record w { logger = Logger.set_level level w.logger })

  -- What the other threads do between two steps of `main`.
  abbrev pub meanwhile : (World p → World p) → Exec (World p) (Unit {0})
  meanwhile others w = (ok tt, others w)

  -- The thread of `ioc_.run()` starts behind the constructor; with no operation started, `run`
  -- returns at once and nothing completes later.
  unfoldable pub tcp_server_example :
      (World p → World p) → (World p → World p) → (World p → World p) → Exec (World p) (Unit {0})
  unfolding set_level
  tcp_server_example before between behind = do
    set_level debug
    registry_init
    Server.construct 12345
    meanwhile before
    Server.start
    meanwhile between
    log info (codes "Server started on port " ++ to_string 12345)
    meanwhile behind

  -- The thread of the commands starts before the constructor of the server.
  unfoldable pub commands_example :
      (World p → World p) → (World p → World p) → (World p → World p) → Exec (World p) (Unit {0})
  unfolding set_level
  commands_example first before behind = do
    set_level error
    registry_init
    meanwhile first
    Server.construct 12345
    meanwhile before
    Server.start
    meanwhile behind

  unfoldable pub chat_example :
      (World p → World p)
      → (World p → World p)
      → (World p → World p)
      → (World p → World p)
      → Exec (World p) (Unit {0})
  unfolding set_level
  chat_example first before between behind = do
    set_level info
    registry_init
    meanwhile first
    Server.construct 12345
    meanwhile before
    Server.start
    meanwhile between
    Chat.start
    meanwhile behind

  unfoldable pub log_example : Exec (World p) (Unit {0})
  unfolding set_level
  log_example = do
    set_level debug
    log error (utf8 "Тест ошибки (должен быть красным)")
    log warning (utf8 "Тест предупреждения")
