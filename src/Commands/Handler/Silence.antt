-- ===== src/Commands/Handler/Silence.antt =====
-- What a round of the loop prints.
use kuro_net.Prelude.{
  ℕ, ◌≡◌, ◌≢◌, refl, ap, true, false, Option, none, some, inl, inr, List, [], ◌+◌, length, ◌++◌,
  nat_eq, ◌==◌, Bool-cases, eq_of_beq, arith,
}
use kuro_net.Text.{Bytes}
use kuro_net.Logger.{Level, stop, resume}
use kuro_net.Logger.Clock.{current_time}
use kuro_net.Logger.Held.{Holds-refl, held_lines}
use kuro_net.Platform.{Platform}
use kuro_net.World.{World}
use kuro_net.Session.Silence.{Holds-Stands, Holds-Closed}
use kuro_net.Commands.Handler.{round, at_prompt}
use kuro_net.Commands.Handler.Keeps.{Keeps-on_line}

module _ {p : Platform} where
  -- A round prints exactly the lines that had been held back before it, whatever the key and the line
  -- are, and whatever the command does. Behind the key `!` the log stays stopped, and holds one line for
  -- each reading of the clock in the round, in order, each made of that reading, a level and a message;
  -- otherwise it goes on with nothing held back.
  pub round_prints :
      (key : Option ℕ) (line : Bytes) (w : World p)
      → let lg = (round key line w).1.logger in
        (lg.out ≡ w.logger.out ++ w.logger.log_when_stopped)
        × (key ≡ some b'!'
            → (lg.stop_flag ≡ true)
              × (entries : List (Level × Bytes)) × (lg.readings
                  ≡ w.logger.readings + length entries)
              × (lg.log_when_stopped ≡ held_lines (current_time p.clock) w.logger.readings entries))
        × (key ≢ some b'!' → (lg.stop_flag ≡ false) × (lg.log_when_stopped ≡ []))
  unfolding round stop resume
  round_prints none line w = (refl, λ e. cc, λ ne. (refl, refl))
  round_prints (some c) line w = elim (Bool-cases (c == b'!')) [
    | inl mark ↦
        let lg = stop (resume w.logger) in
        let h = (Keeps-on_line (Holds-Closed lg) line).at (at_prompt w) (Holds-refl _ lg refl) in
        rw mark (
          h.printed,
          λ e. (h.stopped, h.entries, h.read, h.held),
          λ ne. absurd (ne (ap some (eq_of_beq c b'!' mark))),
        )
    | inr other ↦ rw other (refl, λ e. absurd (differs c other e), λ ne. (refl, refl))
  ]
    where
      differs : (c : ℕ) → (c == b'!') ≡ false → some c ≢ some b'!'
      differs c other e = ground arith
