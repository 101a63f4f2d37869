-- ===== src/Commands/Handler/Leaving.antt =====
-- The loop of the command handler, and the terminal that it leaves.
use mathlib.Core.Path.{subst}
use kuro_net.Prelude.{
  ℕ, ◌≡◌, sym, ap, true, false, Bool, Option, none, some, List, [], ◌∷◌, nat_eq, ◌==◌,
  if◌then◌else◌,
}
use kuro_net.Text.{Bytes}
use kuro_net.Logger.{stop, resume}
use kuro_net.Platform.{Platform, Termios}
use kuro_net.Exec.{Exec, ok, pure, ◌>>◌}
use kuro_net.World.{World, Terminal}
use kuro_net.Session.{create_token}
use kuro_net.Session.Keeps.{Keeps, Keeps-pure, Keeps-then, Keeps-bind, Keeps-if, Stands}
use kuro_net.Session.Closed.{Closed, Anyone}
use kuro_net.Commands.Handler.{
  Next, again, exits, round, run, on_line, go_on, set_nonblocking, on_log,
}
use kuro_net.Commands.Handler.Keeps.{Keeps-on_line}
use kuro_net.Commands.Handler.Exit.{run_iff}
use kuro_net.Commands.Handler.Attributes.{
  IsPosix, Settles, Leaves, attended-Settles, prompt-Leaves, settled,
}

abbrev pub terminal_of : {p : Platform} → World p → Terminal p
terminal_of w = w.terminal

instance pub terminal-Stands :
    {p : Platform} {P : Terminal p → Type 0} → Stands {p = p} terminal_of P
terminal-Stands {P = P} = record {
  logs = λ level text w h. h;
  rests = λ w u same seen still h. subst P (sym still) h;
}

-- The operations of the session leave the terminal alone.
terminal-Closed : {p : Platform} {P : Terminal p → Type 0} → Closed {p = p} Anyone terminal_of P
unfolding create_token
terminal-Closed = record {
  forgets_waiting = λ id w h. h;
  forgets_client = λ id w h. h;
  puts_token = λ token w h. h;
  admits = λ id token c w allowed active waiting h. h;
  reads = λ id c w h. h;
  writes = λ c text w h. h;
  waits = λ w h. h;
}

module _ {p : Platform} (posix : IsPosix p) (a : Termios) where
  Keeps-set_nonblocking :
      (enable : Bool) → Keeps {p = p} terminal_of (Settles a) (set_nonblocking enable)
  unfolding set_nonblocking
  Keeps-set_nonblocking enable = record { at = λ w h. attended-Settles posix a enable w.terminal h }

  Keeps-typed :
      (line : Bytes)
      → Keeps {p = p} terminal_of
          (Settles a)
          (on_log stop >> (set_nonblocking false >> on_line line))
  Keeps-typed line =
      Keeps-then (on_log stop) _ (record { at = λ w h. h })
        (Keeps-then (set_nonblocking false) _ (Keeps-set_nonblocking false)
          (Keeps-on_line terminal-Closed line))

  Keeps-keyed :
      (key : Option ℕ) (line : Bytes)
      → Keeps {p = p} terminal_of (Settles a) (elim key [
        | none ↦ pure again
        | some c ↦
            if c == b'!'
            then (on_log stop >> (set_nonblocking false >> on_line line))
            else pure again
      ])
  Keeps-keyed none line = Keeps-pure again
  Keeps-keyed (some c) line = Keeps-if (c == b'!') _ _ (Keeps-typed line) (Keeps-pure again)

  Keeps-round :
      (key : Option ℕ) (line : Bytes) → Keeps {p = p} terminal_of (Settles a) (round key line)
  unfolding round
  Keeps-round key line =
      Keeps-then (set_nonblocking true) _ (Keeps-set_nonblocking true)
        (Keeps-then (on_log resume) _ (record { at = λ w h. h }) (Keeps-keyed key line))

  Keeps-go_on :
      (rest : Exec (World p) Next)
      → Keeps {p = p} terminal_of (Settles a) rest
      → (next : Next) → Keeps terminal_of (Settles a) (go_on rest next)
  Keeps-go_on rest kept again = kept
  Keeps-go_on rest kept exits = Keeps-pure exits

  pub Keeps-run :
      (readings : List (Option ℕ × Bytes)) → Keeps {p = p} terminal_of (Settles a) (run readings)
  unfolding run
  Keeps-run [] = Keeps-pure again
  Keeps-run ((key, line) ∷ readings) =
      Keeps-bind (round key line) _ (Keeps-round key line)
        (Keeps-go_on (run readings) (Keeps-run readings))

-- On a terminal where what has been set is what is read, over every run of the loop that ends by the
-- line `exit`: the terminal is left with ICANON and ECHO set, with VMIN and VTIME at 0 whatever they
-- were before, and with all other flags, control characters and modes as they were.
pub run-Leaves :
    {p : Platform} (posix : IsPosix p) (readings : List (Option ℕ × Bytes)) (w u : World p)
    (a : Termios)
    → p.tcgetattr w.terminal.tty ≡ some a
    → run readings w ≡ (ok exits, u)
    → Leaves a u.terminal
run-Leaves {p = p} posix readings w u a e ended =
    let (before, later, w', split, ran, state) = (run_iff readings w u).0 ended in
    let h = (Keeps-run posix a before).at w (settled a w.terminal e) in
    subst (λ (v : World p). Leaves a v.terminal) (sym state)
      (prompt-Leaves posix a w'.terminal
        (subst (λ (v : World p). Settles a v.terminal) (ap (λ r. r.1) ran) h))
