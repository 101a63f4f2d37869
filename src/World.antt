-- ===== src/World.antt =====
-- The process: its sockets, its log, and the singleton `Session` with the clients.
pub mod Reorder
use kuro_net.Logger.Clock.{current_time}
use kuro_net.Prelude.{ℕ, Bool, List, [], ◌∷◌, ◌++◌, ◌==◌, nat_eq, if◌then◌else◌}
use kuro_net.Prelude.Int.{ℤ}
use kuro_net.Text.{Bytes}
use kuro_net.Logger.{Logger, Level}
use kuro_net.Logger
use kuro_net.Platform.{Platform, ErrorCode, Termios}
use kuro_net.Exec.{Exec, ok, Exception, invalid_argument, out_of_range, runtime_error, system_error}

-- include/net/Client.hpp. A shared pointer to a socket is the number of the socket.
pub record Client : Type 0 where
  pub socket : ℕ
  pub id : Bytes
  pub login : Bytes
  pub token : Bytes
  pub agent_type : Bytes

-- `ClientPolicyRegistry::AgentType`.
pub data AgentType : Type 0 where
  unknown kuro_web kuro_desktop kuro_mobile custom_client : AgentType

-- The classes derived from `KuroNetClient`, which are the handlers of the protocols.
pub data Handler : Type 0 where
  unknown_handler web_handler desktop_handler mobile_handler custom_handler : Handler

pub record Registry : Type 0 where
  pub agents : List (Bytes × AgentType)
  pub protocols : List (AgentType × Handler)

-- `ClientSessionManager`.
pub record Manager : Type 0 where
  pub clients : List (Bytes × Client)
  pub wait_clients : List (Bytes × Client)
  pub active_tokens : List Bytes
  pub registry : Registry

-- An asynchronous operation that has been started and whose handler has not run yet.
pub data Pending : Type 0 where
  -- `async_accept` into a socket, and `async_read_until` of a request from it.
  accepting requesting : ℕ → Pending
  -- The chat: `async_read_until` of a line from a client, with the id that it was started for;
  -- `async_write` of a message to a client; `async_wait` of the timer.
  reading : Bytes → Client → Pending
  writing : Client → Bytes → Pending
  waiting : Pending

-- The standard input, and the static variables of `set_nonblocking`.
pub record Terminal (p : Platform) : Type 0 where
  pub tty : p.Tty
  pub oldt : Termios
  pub newt : Termios

pub record World (p : Platform) : Type 0 where
  pub sockets : ℕ → p.Sock
  -- The number of the next socket that is made.
  pub next_socket : ℕ
  pub logger : Logger
  pub manager : Manager
  -- How many random numbers have been drawn, and how often the steady clock has been read.
  pub draws : ℕ
  pub steady_reads : ℕ
  -- `TokenHandler::token_time`.
  pub token_time : ℤ
  -- The newest operation stands last.
  pub pending : List Pending
  -- The member `command` of `TokenCommand` and of `ClientsCommand`, and `command_parts` of the
  -- `CommandHandler`.
  pub token_command : List Bytes
  pub clients_command : List Bytes
  pub command_parts : List Bytes
  -- `Chat::started`.
  pub chat_started : Bool
  -- The member `acceptor` of the `TCPServer`.
  pub acceptor : p.Acceptor
  pub terminal : Terminal p

-- What the handlers pass on among one another: the maps, the operations that are started, and the
-- number of the next socket.
pub record View : Type 0 where
  pub manager : Manager
  pub pending : List Pending
  pub next_socket : ℕ

abbrev pub view : {p : Platform} → World p → View
view w = record { manager = w.manager; pending = w.pending; next_socket = w.next_socket }

abbrev pub on_manager : (Manager → Manager) → View → View
on_manager f v = record v { manager = f v.manager }

abbrev pub put_operation : Pending → View → View
put_operation op v = record v { pending = v.pending ++ op ∷ [] }

abbrev pub update : {A : Type 0} → (ℕ → A) → ℕ → A → ℕ → A
update f k a j = if k == j then a else f j

-- `e.what()`.
abbrev pub what : Platform → Exception → Bytes
what p (invalid_argument m) = m
what p (out_of_range m) = m
what p (runtime_error m) = m
what p (system_error e) = p.error_text e

module _ {p : Platform} where
  -- `Logger::log`.
  abbrev pub log : Level → Bytes → Exec (World p) (Unit {0})
  log level message w =
      (ok tt, record w { logger = Logger.log (current_time p.clock) level message w.logger })

  -- A call on the socket `s` that reports an error code and may change the socket.
  abbrev pub on_socket : (p.Sock → ErrorCode × p.Sock) → ℕ → Exec (World p) ErrorCode
  on_socket call s w =
      let r = call (w.sockets s) in (ok (r.0), record w { sockets = update w.sockets s (r.1) })

  -- An asynchronous operation begins.
  abbrev pub start_operation : Pending → Exec (World p) (Unit {0})
  start_operation op w = (ok tt, record w { pending = w.pending ++ op ∷ [] })
