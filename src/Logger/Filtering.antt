-- ===== src/Logger/Filtering.antt =====
-- tests/logger_test.cpp: the test of the filter, from any log that the test may meet.
use mathlib.Core.List.{append_assoc}
use kuro_net.Prelude.{
  ℕ, ◌≡◌, refl, Bool, true, false, not, ◌&&◌, Option, none, some, List, [], ◌∷◌, ◌++◌, inl, inr,
  Option-cases, Bool-cases,
}
use kuro_net.Text.{Bytes, codes, is_empty, find}
use kuro_net.Text.Find.{Contains, Contains→rfind, rfind-eq-none}
use kuro_net.Logger.{
  info, warning, error, Logger, set_level, log, log_output, colour_red, colour_reset, write_line,
}

-- What `std::cout` was sent, as one text.
pub lines_text : List Bytes → Bytes
lines_text [] = []
lines_text (line ∷ lines) = line ++ (codes "\n" ++ lines_text lines)

abbrev is_found : Option ℕ → Bool
is_found none = false
is_found (some _) = true

-- The test case "Logger level filtering": both its demands are met. `std::cout` is redirected, so that
-- only what is printed from here on counts.
unfoldable pub level_filtering : (ℕ → Bytes) → Logger → Bool
unfolding lines_text
level_filtering t lg =
    let quiet = log t info (codes "INFO test") (set_level warning (record lg { out = [] })) in
    let loud = log t error (codes "ERROR test") quiet in
    is_empty (lines_text quiet.out) && is_found (find (lines_text loud.out) (codes "ERROR"))

error_line-Contains :
    (time : Bytes)
    → Contains (lines_text (log_output time error (codes "ERROR test") ∷ [])) (codes "ERROR")
unfolding lines_text log_output
error_line-Contains time = (
  codes "[" ++ (time ++ (codes "][KuroNet][" ++ colour_red)),
  colour_reset
      ++ (codes "]: " ++ (colour_red ++ (codes "ERROR test" ++ (colour_reset ++ codes "\n")))),
  simp append_assoc,
)

error_line-is_found :
    (time : Bytes)
    → is_found (find (lines_text (log_output time error (codes "ERROR test") ∷ [])) (codes "ERROR"))
      ≡ true
error_line-is_found time =
    let line = lines_text (log_output time error (codes "ERROR test") ∷ []) in
    elim (Option-cases (find line (codes "ERROR"))) [
      | inl e ↦ absurd (
          Contains→rfind line (codes "ERROR") (error_line-Contains time)
            ((rfind-eq-none line (codes "ERROR")).1 e))
      | inr (i, e) ↦ rw e refl
    ]

-- The test passes exactly where the log is not stopped, whatever its level, what it has held back and
-- printed before, and the clock.
pub level_filtering_lem : (t : ℕ → Bytes) (lg : Logger) → level_filtering t lg ≡ not lg.stop_flag
unfolding level_filtering log set_level write_line find
level_filtering_lem t lg = elim (Bool-cases lg.stop_flag) [
  | inl e ↦ rw e refl
  | inr e ↦ rw e (error_line-is_found (t lg.readings))
]
