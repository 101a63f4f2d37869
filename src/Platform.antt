-- ===== src/Platform.antt =====
-- What the program calls and does not implement: Boost.Asio's sockets and error codes, the clock,
-- the random device, `std::hash` and the calls of termios. All of it is one parameter of the model.
use kuro_net.Prelude.{ℕ, ◌<◌, Bool, false, Option}
use kuro_net.Text.{Bytes}
use kuro_net.Logger.Clock.{Clock}

-- `boost::system::error_code`: the values that the program tells apart, and all others.
pub data ErrorCode : Type 0 where
  success not_connected connection_reset broken_pipe eof would_block : ErrorCode
  other_error : ℕ → ErrorCode

-- `struct termios`, with the flags bit by bit.
pub record Termios : Type 0 where
  pub c_iflag : ℕ → Bool
  pub c_oflag : ℕ → Bool
  pub c_cflag : ℕ → Bool
  pub c_lflag : ℕ → Bool
  pub c_cc : ℕ → ℕ

-- What a static variable starts with.
abbrev pub no_attributes : Termios
no_attributes = record {
  c_iflag = λ i. false;
  c_oflag = λ i. false;
  c_cflag = λ i. false;
  c_lflag = λ i. false;
  c_cc = λ i. 0;
}

pub record Platform : Type 1 where
  -- The state of a socket, as the process sees it.
  pub Sock : Type 0
  -- A socket that has just been made.
  pub fresh_socket : Sock
  pub is_open : Sock → Bool
  -- The error, and the address as text.
  pub remote_endpoint : Sock → ErrorCode × Bytes
  pub set_non_blocking : Sock → ErrorCode × Sock
  -- `read_some` into a buffer of one byte.
  pub read_some : Sock → ErrorCode × Sock
  pub shutdown : Sock → ErrorCode × Sock
  pub close : Sock → ErrorCode × Sock
  pub write : Bytes → Sock → ErrorCode × Sock
  -- The acceptor: opened and bound to a port by its constructor, set to listen, and closed.
  pub Acceptor : Type 0
  pub open_acceptor : ℕ → ErrorCode × Acceptor
  pub listen : Acceptor → ErrorCode × Acceptor
  pub close_acceptor : Acceptor → ErrorCode × Acceptor
  pub message : ErrorCode → Bytes
  -- `what()` of the `system_error` that a call throws.
  pub error_text : ErrorCode → Bytes
  -- The system clock, and the n-th reading of the steady clock in seconds.
  pub clock : Clock
  pub steady_now : ℕ → ℕ
  -- The n-th number drawn from `uniform_int_distribution(0, 61)`, and its documented range.
  pub draw : ℕ → ℕ
  pub draw_lt : (n : ℕ) → draw n < 62
  -- `std::hash<std::string>`.
  pub hash : Bytes → ℕ
  -- Whether the library lets an iterator of an unordered map be read while a node handle owns its
  -- element. The standard leaves it undefined.
  pub reads_extracted : Bool
  -- The standard input, whose attributes are read and set; it may be no terminal.
  pub Tty : Type 0
  pub tcgetattr : Tty → Option Termios
  pub tcsetattr : Termios → Tty → Tty
  -- The bits ICANON and ECHO of `c_lflag`, and the places VMIN and VTIME of `c_cc`.
  pub icanon : ℕ
  pub echo : ℕ
  pub vmin : ℕ
  pub vtime : ℕ
