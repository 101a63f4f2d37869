-- ===== src/Logger/Order.antt =====
-- What reaches the terminal, and in which order.
use mathlib.Core.List.{append-nil, append_assoc}
use kuro_net.Prelude.{
  ℕ, ◌+◌, ◌≡◌, refl, sym, ◌∙◌, Bool, true, false, List, [], ◌∷◌, ◌++◌, leb, if◌then◌else◌, arith,
}
use kuro_net.Text.{Bytes}
use kuro_net.Logger.{
  Level, rank, Logger, log_output, with_mark, Call, sets, logs, stops, resumes, step, run,
}

-- All that has been logged, oldest first, whether printed or held back.
abbrev pub transcript : Logger → List Bytes
transcript lg = lg.out ++ lg.log_when_stopped

-- Lines are held back only while the log is stopped.
abbrev pub IsFlushed : Logger → Type 0
IsFlushed lg = lg.stop_flag ≡ false → lg.log_when_stopped ≡ []

-- The lines of a run of calls, told from the calls alone: the level and the stop flag in force,
-- and the number of times that the clock has been read.
abbrev pub lines_of : (ℕ → Bytes) → List Call → Level → Bool → ℕ → List Bytes
lines_of t [] level stopped n = []
lines_of t (sets l ∷ cs) level stopped n = lines_of t cs l stopped n
lines_of t (logs l message ∷ cs) level stopped n =
    if leb (rank level) (rank l)
    then (if stopped then with_mark (log_output (t n) l message) else log_output (t n) l message)
      ∷ lines_of t cs level stopped (n + 1)
    else lines_of t cs level stopped n
lines_of t (stops ∷ cs) level stopped n = lines_of t cs level true n
lines_of t (resumes ∷ cs) level stopped n = lines_of t cs level false n

step-IsFlushed : (t : ℕ → Bytes) (c : Call) (lg : Logger) → IsFlushed lg → IsFlushed (step t c lg)
unfolding step
step-IsFlushed t (sets l) lg h = h
step-IsFlushed t (logs l message) lg h = ground arith
step-IsFlushed t stops lg h = λ e. cc
step-IsFlushed t resumes lg h = λ e. refl

-- A new line goes behind all others, also where it is held back.
transcript_grows :
    (out held : List Bytes) (x : Bytes) (rest : List Bytes)
    → (((out ++ x ∷ []) ++ []) ++ rest ≡ (out ++ []) ++ x ∷ rest)
      × ((out ++ (held ++ x ∷ [])) ++ rest ≡ (out ++ held) ++ x ∷ rest)
transcript_grows out held x rest = (simp (append-nil, append_assoc), simp append_assoc)

transcript-step :
    (t : ℕ → Bytes) (c : Call) (cs : List Call) (lg : Logger)
    → IsFlushed lg
    → let next = step t c lg in
      transcript next ++ lines_of t cs next.current_level next.stop_flag next.readings
      ≡ transcript lg ++ lines_of t (c ∷ cs) lg.current_level lg.stop_flag lg.readings
unfolding step
transcript-step t (sets l) cs lg h = refl
transcript-step t (logs l message) cs lg h =
    let line = log_output (t lg.readings) l message in
    let rest = lines_of t cs lg.current_level lg.stop_flag (lg.readings + 1) in
    ground (
      arith,
      (transcript_grows lg.out lg.log_when_stopped line rest).0,
      (transcript_grows lg.out lg.log_when_stopped (with_mark line) rest).1,
    )
transcript-step t stops cs lg h = refl
transcript-step t resumes cs lg h = simp append-nil

-- From a log that holds nothing back without need, a run of calls prints or holds exactly the
-- lines of `lines_of` behind the old ones, in the order of the calls, and ends in such a log.
pub transcript-run :
    (t : ℕ → Bytes) (cs : List Call) (lg : Logger)
    → IsFlushed lg
    → (transcript (run t cs lg)
        ≡ transcript lg ++ lines_of t cs lg.current_level lg.stop_flag lg.readings)
      × IsFlushed (run t cs lg)
unfolding run
transcript-run t [] lg h = (sym (append-nil _), h)
transcript-run t (c ∷ cs) lg h =
    let (shown, kept) = transcript-run t cs (step t c lg) (step-IsFlushed t c lg h) in
    (shown ∙ transcript-step t c cs lg h, kept)
