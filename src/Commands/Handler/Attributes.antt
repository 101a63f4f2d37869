-- ===== src/Commands/Handler/Attributes.antt =====
-- The terminal's attributes under the command handler.
use kuro_net.Prelude.{ℕ, ◌≡◌, ◌≢◌, refl, true, false, Bool, some, nat_eq, arith}
use kuro_net.Platform.{Platform, Termios}
use kuro_net.World.{Terminal}
use kuro_net.Commands.Handler.{attended, raw_attributes, line_attributes}

-- What POSIX says of a terminal: what has been set is what is read.
abbrev pub IsPosix : Platform → Type 0
IsPosix p = (a : Termios) (tty : p.Tty) → p.tcgetattr (p.tcsetattr a tty) ≡ some a

-- From `a` to `b`, nothing changes but ICANON, ECHO, VMIN and VTIME.
pub record Alike (p : Platform) (a b : Termios) : Type 0 where
  pub input : b.c_iflag ≡ a.c_iflag
  pub output : b.c_oflag ≡ a.c_oflag
  pub control : b.c_cflag ≡ a.c_cflag
  pub flags : (i : ℕ) → i ≢ p.icanon → i ≢ p.echo → b.c_lflag i ≡ a.c_lflag i
  pub characters : (i : ℕ) → i ≢ p.vmin → i ≢ p.vtime → b.c_cc i ≡ a.c_cc i

module _ (p : Platform) (a b : Termios) (h : Alike p a b) where
  raw-Alike : Alike p a (raw_attributes p b)
  unfolding raw_attributes
  raw-Alike = record {
    input = h.input;
    output = h.output;
    control = h.control;
    flags = λ i other more. ground (arith, h.flags i other more);
    characters = λ i other more. ground (arith, h.characters i other more);
  }

  line-Alike : Alike p a (line_attributes p b)
  unfolding line_attributes
  line-Alike = record {
    input = h.input;
    output = h.output;
    control = h.control;
    flags = λ i other more. ground (arith, h.flags i other more);
    characters = h.characters;
  }

-- The terminal has the attributes `a`, but for ICANON, ECHO, VMIN and VTIME.
pub record Settles {p : Platform} (a : Termios) (t : Terminal p) : Type 0 where
  pub now : Termios
  pub is_read : p.tcgetattr t.tty ≡ some now
  pub alike : Alike p a now

module _ {p : Platform} (posix : IsPosix p) where
  -- What is read behind the call, where the attributes could be read before.
  attended_raw :
      (b : Termios) (t : Terminal p)
      → p.tcgetattr t.tty ≡ some b
      → p.tcgetattr (attended true t).tty ≡ some (raw_attributes p b)
  unfolding attended
  attended_raw b t e = rw e (posix _ t.tty)

  attended_line :
      (b : Termios) (t : Terminal p)
      → p.tcgetattr t.tty ≡ some b
      → p.tcgetattr (attended false t).tty ≡ some (line_attributes p b)
  unfolding attended
  attended_line b t e = rw e (posix _ t.tty)

module _ {p : Platform} (posix : IsPosix p) (a : Termios) where
  pub attended-Settles :
      (enable : Bool) (t : Terminal p) → Settles a t → Settles a (attended enable t)
  attended-Settles true t h = record {
    now = raw_attributes p h.now;
    is_read = attended_raw posix h.now t h.is_read;
    alike = raw-Alike p a h.now h.alike;
  }
  attended-Settles false t h = record {
    now = line_attributes p h.now;
    is_read = attended_line posix h.now t h.is_read;
    alike = line-Alike p a h.now h.alike;
  }

-- The bits and the places that the two calls set.
module _ (p : Platform) (a : Termios) where
  line-icanon : (line_attributes p a).c_lflag p.icanon ≡ true
  unfolding line_attributes
  line-icanon = ground arith

  line-echo : (line_attributes p a).c_lflag p.echo ≡ true
  unfolding line_attributes
  line-echo = ground arith

  line-vmin : (line_attributes p (raw_attributes p a)).c_cc p.vmin ≡ 0
  unfolding line_attributes raw_attributes
  line-vmin = ground arith

  line-vtime : (line_attributes p (raw_attributes p a)).c_cc p.vtime ≡ 0
  unfolding line_attributes raw_attributes
  line-vtime = ground arith

-- What the loop leaves on the terminal at its end.
abbrev pub Leaves : {p : Platform} → Termios → Terminal p → Type 0
Leaves {p = p} a t =
    (b : Termios) × (p.tcgetattr t.tty ≡ some b)
    × Alike p a b
    × (b.c_lflag p.icanon ≡ true)
    × (b.c_lflag p.echo ≡ true)
    × (b.c_cc p.vmin ≡ 0)
    × (b.c_cc p.vtime ≡ 0)

pub prompt-Leaves :
    {p : Platform} (posix : IsPosix p) (a : Termios) (t : Terminal p)
    → Settles a t
    → Leaves a (attended false (attended true t))
prompt-Leaves {p = p} posix a t h =
    let raw = raw_attributes p h.now in
    (
      line_attributes p raw,
      attended_line posix raw _ (attended_raw posix h.now t h.is_read),
      line-Alike p a raw (raw-Alike p a h.now h.alike),
      line-icanon p raw,
      line-echo p raw,
      line-vmin p h.now,
      line-vtime p h.now,
    )

pub settled :
    {p : Platform} (a : Termios) (t : Terminal p) → p.tcgetattr t.tty ≡ some a → Settles a t
settled a t e = record {
  now = a;
  is_read = e;
  alike = record {
    input = refl;
    output = refl;
    control = refl;
    flags = λ i other more. refl;
    characters = λ i other more. refl;
  };
}
