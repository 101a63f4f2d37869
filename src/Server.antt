-- ===== src/Server.antt =====
-- include/net/TCPServer.hpp and src/net/TCPServer.cpp: the handlers of `async_accept` and of the read
-- of a request. What Boost.Asio hands to a handler is an argument of it.
pub mod Metadata
pub mod Answer
pub mod Requests
pub mod Keeps
pub mod Silence
pub mod Safe
pub mod Blind
use kuro_net.Prelude.{
  ℕ, ◌+◌, Bool, true, false, not, Option, none, some, List, [], ◌∷◌, ◌++◌, nat_eq, ◌==◌,
  if◌then◌else◌, take,
}
use kuro_net.Text.{Bytes, codes, rfind, erase_byte}
use kuro_net.Logger.{debug, info, error}
use kuro_net.Platform.{Platform, ErrorCode, success}
use kuro_net.Exec.{Exec, Outcome, ok, throw, ◌>>=◌, ◌>>◌, pure, gets, lift}
use kuro_net.Random.{generate_id}
use kuro_net.Dispatcher.{valid_request, parse_client_metadata}
use kuro_net.Registry.{get_agent, create, agent_eq}
use kuro_net.Session.{add_client, auto_approve_client, write, check, has_error, literal}
use kuro_net.World.{
  World, Client, AgentType, unknown, Handler, Registry, Pending, accepting, requesting, log, update,
  on_socket, start_operation,
}

abbrev pub auto_key : Bytes
auto_key = codes "auto"

module _ {p : Platform} where
  -- `std::make_shared<socket>`.
  make_socket : Exec (World p) ℕ
  make_socket w = (
    ok w.next_socket,
    record w {
      sockets = update w.sockets w.next_socket p.fresh_socket;
      next_socket = w.next_socket + 1;
    },
  )

  unfoldable pub do_accept : Exec (World p) (Unit {0})
  unfolding make_socket
  do_accept = do socket ← make_socket; start_operation (accepting socket)

  -- A call on the acceptor that reports an error code.
  on_acceptor : (p.Acceptor → ErrorCode × p.Acceptor) → Exec (World p) ErrorCode
  on_acceptor call w =
      let (ec, acceptor) = call w.acceptor in (ok ec, record w { acceptor = acceptor })

  -- The constructor, with the port.
  unfoldable pub construct : ℕ → Exec (World p) (Unit {0})
  unfolding on_acceptor
  construct port = do ec ← on_acceptor λ _. p.open_acceptor port; check ec

  unfoldable pub start : Exec (World p) (Unit {0})
  unfolding on_acceptor do_accept
  start = do ec ← on_acceptor p.listen; check ec; do_accept

  unfoldable pub stop : Exec (World p) (Unit {0})
  unfolding on_acceptor
  stop = do ec ← on_acceptor p.close_acceptor; check ec

  unfoldable pub on_client_connected : ℕ → Exec (World p) (Unit {0})
  on_client_connected socket = start_operation (requesting socket)

  -- The log entry of the handler of `async_accept`.
  log_accepted : ErrorCode → ℕ → Exec (World p) (Unit {0})
  log_accepted ec socket w =
      let (address_error, address) = p.remote_endpoint (w.sockets socket) in
      if has_error ec
      then log error (p.message ec) w
      else if has_error address_error
      then log error (codes "Can't get client address: " ++ p.error_text address_error) w
      else log info (codes "New client: " ++ address) w

  -- The handler of `async_accept`.
  unfoldable pub on_accept : ErrorCode → ℕ → Exec (World p) (Unit {0})
  unfolding log_accepted
  on_accept ec socket = do log_accepted ec socket; on_client_connected socket; do_accept

  -- A request that is turned down.
  pub refuse : ℕ → Bytes → Exec (World p) (Unit {0})
  refuse socket text = do write socket text; ec ← on_socket p.close socket; check ec

  -- A request of a known agent.
  welcome : Bytes → Handler → Client → Exec (World p) (Unit {0})
  welcome message handler client = do
    (client', parsed) ← parse_client_metadata handler message client
    lift parsed
    log debug client'.agent_type
    elim (rfind message auto_key) [
      | some _ ↦ auto_approve_client client'
      | none ↦ add_client client'
    ]

  -- The answer to a request, with the id that has been made up for its client.
  pub answer : ℕ → Bytes → Bytes → Exec (World p) (Unit {0})
  unfolding refuse welcome
  answer socket message id = do
    registry ← gets λ w. w.manager.registry
    let agent_type = get_agent registry message
    handler ← lift (create registry agent_type)
    let client : Client = record {
      socket = socket;
      id = id;
      login = [];
      token = [];
      agent_type = [];
    }
    if not (valid_request message)
        then refuse socket (literal "INVALID REQUEST FORMAT\n")
        else if agent_type == unknown
        then refuse socket (literal "INVALID AGENT TYPE\n")
        else welcome message handler client

  -- The request behind the removal of the carriage returns.
  unfoldable pub on_message : ℕ → Bytes → Exec (World p) (Unit {0})
  unfolding answer
  on_message socket message = do log debug message; id ← generate_id; answer socket message id

  -- The handler of the read: the error code, the bytes in the buffer, and how many of them go up to
  -- the end of the request.
  unfoldable pub on_request : ErrorCode → ℕ → Bytes → ℕ → Exec (World p) (Unit {0})
  on_request ec socket buffer bytes_transferred =
      if has_error ec
      then log error (codes "Read error: " ++ p.message ec)
      else on_message socket (erase_byte b'\r' (take bytes_transferred buffer))
