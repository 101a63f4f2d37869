-- ===== src/Tests/Sample.antt =====
-- A platform to compute with, and a process on it. A socket is one of four states.
use Prim.Native.Nat.{◌%◌}
use kuro_net.Prelude.{ℕ, zero, suc, ◌+◌, ◌<◌, Bool, true, false, some, [], ◌∷◌, arith}
use kuro_net.Prelude.Int.{pos}
use kuro_net.Text.{Bytes, codes}
use kuro_net.Logger
use kuro_net.Platform.{
  Platform, ErrorCode, Termios, no_attributes, success, not_connected, broken_pipe, would_block,
  eof,
}
use kuro_net.Registry.Agents.{full_registry}
use kuro_net.World.{World, Client, Manager}

pub data Sock : Type 0 where
  closed idle talking broken : Sock

abbrev is_open : Sock → Bool
is_open closed = false
is_open _ = true

abbrev remote_endpoint : Sock → ErrorCode × Bytes
remote_endpoint closed = (not_connected, [])
remote_endpoint _ = (success, codes "10.0.0.1")

abbrev read_some : Sock → ErrorCode × Sock
read_some talking = (success, idle)
read_some idle = (would_block, idle)
read_some s = (eof, s)

abbrev write : Bytes → Sock → ErrorCode × Sock
write text idle = (success, idle)
write text talking = (success, talking)
write text s = (broken_pipe, s)

pub draw_lt : (n : ℕ) → n % 62 < 62
draw_lt n = omega arith

abbrev pub sample : Platform
sample = record {
  Sock = Sock;
  fresh_socket = closed;
  is_open = is_open;
  remote_endpoint = remote_endpoint;
  set_non_blocking = λ s. (success, s);
  read_some = read_some;
  shutdown = λ s. (success, s);
  close = λ s. (success, closed);
  write = write;
  Acceptor = Bool;
  open_acceptor = λ port. (success, true);
  listen = λ a. (success, a);
  close_acceptor = λ a. (success, false);
  message = λ ec. codes "error";
  error_text = λ ec. codes "call: error";
  clock = record { now = λ n. 7 + n; put_time = λ n. codes "12:00" };
  steady_now = λ n. 1000 + n;
  draw = λ n. n % 62;
  draw_lt = draw_lt;
  hash = λ text. 7;
  reads_extracted = true;
  Tty = Termios;
  tcgetattr = λ t. some t;
  tcsetattr = λ a t. a;
  icanon = 1;
  echo = 3;
  vmin = 6;
  vtime = 5;
}

-- A terminal as a shell leaves it.
abbrev pub attributes : Termios
attributes = record {
  c_iflag = λ i. true;
  c_oflag = λ i. true;
  c_cflag = λ i. true;
  c_lflag = λ i. true;
  c_cc = λ i. 1;
}

abbrev pub client : Bytes → ℕ → Client
client id socket = record {
  socket = socket;
  id = id;
  login = codes "guest";
  token = [];
  agent_type = codes "web_client";
}

-- Socket 0 is broken, socket 1 has data to read, and all others are idle.
abbrev sockets : ℕ → Sock
sockets zero = broken
sockets (suc zero) = talking
sockets _ = idle

abbrev pub manager : Manager
manager = record {
  clients = (codes "c", client (codes "c") 2) ∷ (codes "d", client (codes "d") 3) ∷ [];
  wait_clients =
      (codes "t", client (codes "t") 1)
      ∷ (codes "w", client (codes "w") 4)
      ∷ (codes "b", client (codes "b") 0)
      ∷ [];
  active_tokens = codes "perm.x" ∷ [];
  registry = full_registry;
}

abbrev pub world : World sample
world = record {
  sockets = sockets;
  next_socket = 5;
  logger = Logger.initial;
  manager = manager;
  draws = 0;
  steady_reads = 0;
  token_time = pos 60;
  pending = [];
  token_command = [];
  clients_command = [];
  command_parts = [];
  chat_started = true;
  acceptor = true;
  terminal = record { tty = attributes; oldt = no_attributes; newt = no_attributes };
}
