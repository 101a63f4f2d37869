-- ===== src/Logger/Held.antt =====
-- What a stopped log does with the lines that it is given.
use mathlib.Core.List.{append_assoc, append-nil}
use kuro_net.Prelude.{
  ℕ, ◌≡◌, refl, sym, ap, ◌∙◌, true, ◌++◌, List, [], Bool-cases, inl, inr, ltb, ◌+◌, ◌∷◌,
  if◌then◌else◌, arith, length, length-append,
}
use kuro_net.Text.{Bytes}
use kuro_net.Logger.{Level, Logger, rank, log, log_output, with_mark, write_line}

-- The lines that a stopped log holds back of messages with their levels, from the n-th reading of the
-- clock on: one reading to a line.
abbrev pub held_lines : (ℕ → Bytes) → ℕ → List (Level × Bytes) → List Bytes
held_lines t n [] = []
held_lines t n ((level, message) ∷ entries) =
    with_mark (log_output (t n) level message) ∷ held_lines t (n + 1) entries

held_lines-append :
    (t : ℕ → Bytes) (n : ℕ) (xs ys : List (Level × Bytes))
    → held_lines t n (xs ++ ys) ≡ held_lines t n xs ++ held_lines t (n + length xs) ys
held_lines-append t n [] ys = ap (λ k. held_lines t k ys) (omega arith)
held_lines-append t n ((level, message) ∷ xs) ys =
    ap (λ l. with_mark (log_output (t n) level message) ∷ l)
      (held_lines-append t (n + 1) xs ys
        ∙ ap (λ k. held_lines t (n + 1) xs ++ held_lines t k ys) (omega arith))

-- From one log to another that is stopped too: nothing has been printed, and what was held back is
-- still held back, before one line for each reading of the clock since, made of a message and its
-- level.
pub record Holds (t : ℕ → Bytes) (lg lg' : Logger) : Type 0 where
  pub stopped : lg'.stop_flag ≡ true
  pub printed : lg'.out ≡ lg.out
  pub entries : List (Level × Bytes)
  pub read : lg'.readings ≡ lg.readings + length entries
  pub held : lg'.log_when_stopped ≡ lg.log_when_stopped ++ held_lines t lg.readings entries

pub Holds-refl : (t : ℕ → Bytes) (lg : Logger) → lg.stop_flag ≡ true → Holds t lg lg
Holds-refl t lg s = record {
  stopped = s;
  printed = refl;
  entries = [];
  read = omega arith;
  held = sym (append-nil _);
}

pub Holds-trans : {t : ℕ → Bytes} {a b c : Logger} → Holds t a b → Holds t b c → Holds t a c
Holds-trans {t = t} {a = a} {b = b} h k = record {
  stopped = k.stopped;
  printed = k.printed ∙ h.printed;
  entries = h.entries ++ k.entries;
  read = omega (arith, k.read, h.read, length-append h.entries k.entries);
  held =
      k.held
      ∙ ap (λ l. l ++ held_lines t b.readings k.entries) h.held
      ∙ append_assoc _ (held_lines t a.readings h.entries) _
      ∙ ap (λ l. a.log_when_stopped ++ l)
          (ap (λ n. held_lines t a.readings h.entries ++ held_lines t n k.entries) h.read
            ∙ sym (held_lines-append t a.readings h.entries k.entries));
}

log_stopped :
    (t : ℕ → Bytes) (level : Level) (message : Bytes) (lg : Logger)
    → lg.stop_flag ≡ true
    → log t level message lg ≡ (
        if ltb (rank level) (rank lg.current_level) then lg else record lg {
          readings = lg.readings + 1;
          log_when_stopped =
              lg.log_when_stopped ++ with_mark (log_output (t lg.readings) level message) ∷ [];
        })
unfolding log write_line
log_stopped t level message lg s = ground arith

pub log-Holds :
    (t : ℕ → Bytes) (level : Level) (message : Bytes) (lg : Logger)
    → lg.stop_flag ≡ true
    → Holds t lg (log t level message lg)
log-Holds t level message lg s = elim (Bool-cases (ltb (rank level) (rank lg.current_level))) [
  | inl low ↦ rw (log_stopped t level message lg s, low) (Holds-refl t lg s)
  | inr high ↦
      rw (log_stopped t level message lg s, high)
        (record {
          stopped = s;
          printed = refl;
          entries = (level, message) ∷ [];
          read = refl;
          held = refl;
        })
]
