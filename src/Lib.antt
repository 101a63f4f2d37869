-- ===== src/Lib.antt =====
-- KuroNet, a server for agents that send a request, are approved by hand or automatically, and then
-- take part in a chat. An operator gives commands at the terminal.
--
-- How the parts interact. The server accepts a socket, reads one request from it, finds the agent in
-- the registry, lets the dispatcher read the client's metadata, and hands the client to the session,
-- which keeps the clients that wait, the clients that are approved, and the active tokens. The
-- command handler splits a line of the terminal and calls one of two commands, which act on the
-- session and on the token handler. The chat reads lines from the approved clients and writes each
-- to the others. All parts write to one log, which is stopped while the operator types.
--
-- The files, and the code that each is about:
--   Prelude (Tests, Lists, Map, Map/Reorder, Int): names and lemmas that the parts share;
--     `std::unordered_map` as an association list with `lookup`, `emplace` (which keeps an entry
--     that is there) and `erase`; `int` as a bounded integer.
--   Text (Find, Trim): `std::string` as a list of bytes, and what the code calls of it.
--   Logger (Order, History, Held, Filtering, Clock): include/core/logger.hpp, src/core/logger.cpp,
--     and the test tests/logger_test.cpp. `Clock` is the time that a line begins with.
--   Platform: what is outside of the repository, as one record that everything else takes as a
--     parameter: the sockets and their error codes (Boost.Asio), the system clock
--     and `std::put_time`, the random draws, `std::hash`, the attributes of the terminal (termios),
--     and whether an iterator can be read whose element has been extracted, which the standard
--     leaves undefined and the library may allow. The socket operations are functions of the state
--     of the one socket. Of the draws it is supposed that they lie in the range that the code asks
--     for.
--   Exec: the results of a call: it returns, it throws, or its behaviour is undefined. `Exec/Safe`
--     holds the rules by which a chain of steps is not undefined, which the modules Safe of the
--     other parts apply to their operations.
--   World: the whole process as one record: sockets, log, `ClientSessionManager`
--     (include/net/Session.hpp), the registry's maps, the members of the commands, the counters
--     of draws and clock readings, the attributes of the terminal, and the asynchronous operations
--     that are started (`pending`). `World/Reorder` is about the process with its maps in another
--     order, with the rules by which a chain of steps does not depend on it, which the modules
--     Blind of the other parts apply to their operations.
--   Random (Shape): `random_generate_str` and `IDGenerator` of src/core/UniqueUtils.cpp.
--   Tokens (Stoi, Shape, Bounds, Keeps, Safe, Blind): `TokenHandler` of
--     src/core/UniqueUtils.cpp, with `std::stoi`.
--   Dispatcher (Fields, Keeps, Blind): include/net/Dispatcher/KuroNetClient.hpp and the five
--     classes under include/net/Dispatcher/handlers, of which each has its record of policies.
--   Registry (Agents): src/net/core/ClientPolicyRegistry.cpp.
--   Session (Approval, Removal, Walk, Keeps, Turns, Closed, Silence, Valid,
--     Invariant, Admission, Safe, Blind, Blind/Steps):
--     src/net/Session.cpp. `Keeps` holds the rules by which a chain of steps keeps an invariant,
--     and `Closed` what an invariant has to stand; the modules Keeps of the other parts show
--     once that their operations keep all that stands it. The modules Silence apply that to the
--     log: nothing is printed while it is stopped.
--   Server (Metadata, Answer, Requests, Keeps, Silence, Safe, Blind): include/net/TCPServer.hpp
--     and the handlers of src/net/TCPServer.cpp.
--   Commands (Token, Clients, Handler, with their Outcomes, Keeps, Lists, Partition,
--     Rounds, Exit, Silence, Attributes, Leaving, Safe, Blind): src/core/commands/token_command.cpp,
--     src/core/commands/clients_command.cpp and src/core/CommandHandler.cpp.
--   Chat (Delivery, Rounds, Restart, Keeps, Safe, Blind): src/net/Chat/Chat.cpp.
--   Process (Keeps, Invariant, Silence, Safe, Blind): an event of the whole process (a handler of
--     the event loop, or a call of another thread), and a sequence of events.
--   Process/Loop (Accepts, Admission, Owners, Valid, Order): the event loop as a step relation: a
--     step completes one of the operations in `pending`, in any order and with any outcome, or is a
--     call of another thread.
--   Config (Parts, File, Lookup, Number, Example): include/core/System/SystemConfig.hpp and
--     examples/config_file_example.cpp, with a state of their own: the instance of the class,
--     the files and the log. The file system, the JSON library and the macros of the build are a
--     second parameter, of which nothing is supposed.
--   Programs (Runs): the programs examples/tcp_server_example.cpp, commands_example.cpp,
--     chat_example.cpp and log_example.cpp, up to the joins of their threads. What the other
--     threads do between the calls of `main` is an argument, supposed to be a run of
--     `Process.Loop`. The run is empty where `io_context::run` has returned early.
--   Tests: sample data, runs of the code on it, and the theorems at concrete inputs.
--
-- A function of the code that changes state is a function of the state of the process into its
-- outcome and the state behind it. The handler of an asynchronous operation is a function of its
-- own, which takes what Boost.Asio hands to it; starting an operation adds it to `pending`. A call of
-- the log or of the session is one step. The session holds a mutex over all that it changes, and
-- `approve_client` has released that of the tokens before it takes that of the clients. The log is
-- less strict: `log` reads the level and the stop flag before it takes its mutex, and `set_level`,
-- `stop` and `_continue` take none. What is stated of the log is stated of calls one after the other.
-- A round of the command loop is one step too: what other threads do while it waits for its key and
-- its line stands before or behind it.
--
-- Bounds. Loops run over lists and are structural recursion, but for two that take fuel. The digits
-- of a number are produced on n + 1 rounds for the number n, which has no more digits. The split of
-- a parameter at its dots takes a round more than the parameter has bytes; `parts_of_lem` shows
-- that this is enough. `std::stoi` throws outside of the 32-bit `int`, the product that makes the
-- time of tokens is undefined outside of it, and the sum with the clock is cut down to it.
--
-- What is not modelled: `ChatRoom`, whose code is commented out; the thread objects; the prompt and
-- the pause of the command loop, and the screen; the socket that closes when its last shared pointer
-- goes; data races, and what other threads do within a call of `main`; and the buckets of an
-- unordered map: the order of the list stands for the order in which it is walked.
pub mod Prelude
pub mod Text
pub mod Logger
pub mod Platform
pub mod Exec
pub mod World
pub mod Random
pub mod Dispatcher
pub mod Registry
pub mod Session
pub mod Server
pub mod Tokens
pub mod Commands
pub mod Chat
pub mod Process
pub mod Programs
pub mod Config
mod Tests
