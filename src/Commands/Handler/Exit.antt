-- ===== src/Commands/Handler/Exit.antt =====
-- The loop of the command handler, and its end by the line `exit`.
use kuro_net.Prelude.{
  ℕ, ◌≡◌, ◌↔◌, refl, ap, ◌∙◌, sym, true, Option, none, some, inl, inr, List, [], ◌∷◌, ◌++◌, nat_eq,
  list_eq, ◌==◌, eq_of_beq, Bool-cases, list_beq,
}
use kuro_net.Text.{Bytes, codes, is_empty}
use kuro_net.Platform.{Platform}
use kuro_net.Exec.{ok, pure, ◌>>=◌, bind-eq-ok}
use kuro_net.World.{World}
use kuro_net.Commands.Handler.{
  Next, again, exits, round, run, run_line, on_line, go_on, get_help, command_partition,
  executor_valid, at_prompt,
}

module _ {p : Platform} where
  -- A line that is no command of the handler itself never ends the loop.
  run_line_again : (line : Bytes) (w u : World p) → run_line line w ≡ (ok exits, u) → again ≡ exits
  unfolding run_line
  run_line_again line w u h =
      let (_, _, rest) =
        bind-eq-ok (command_partition line) (λ _. executor_valid >>= λ _. pure again) w h in
      let (_, _, last) = bind-eq-ok executor_valid (λ _. pure again) _ rest in cc

  on_line_exits :
      (line : Bytes) (w u : World p)
      → on_line line w ≡ (ok exits, u)
      → (line == codes "exit" ≡ true) × (u ≡ w)
  unfolding on_line get_help
  on_line_exits line w u h = elim (Bool-cases (line == codes "exit")) [
    | inl exit ↦ (exit, cc (rw exit at h))
    | inr other ↦ elim (Bool-cases (line == codes "help")) [
      | inl help ↦ cc (rw (other, help) at h)
      | inr more ↦ elim (Bool-cases (is_empty line)) [
        | inl empty ↦ cc (rw (other, more, empty) at h)
        | inr full ↦ let no = run_line_again line w u (rw (other, more, full) at h) in cc
      ]
    ]
  ]

  run-append :
      (before later : List (Option ℕ × Bytes)) (w w' : World p)
      → run before w ≡ (ok again, w')
      → run (before ++ later) w ≡ run later w'
  unfolding run
  run-append [] later w w' h = ap (run later) (cc h)
  run-append ((key, line) ∷ before) later w w' h =
      let (next, e, rest) = bind-eq-ok (round key line) (go_on (run before)) w h in
      goes_on next e rest (run-append before later (round key line w).1 w')
    where
      goes_on :
          (next : Next)
          → (round key line w).0 ≡ ok next
          → go_on (run before) next (round key line w).1 ≡ (ok again, w')
          → (run before (round key line w).1 ≡ (ok again, w')
              → run (before ++ later) (round key line w).1 ≡ run later w')
          → run ((key, line) ∷ before ++ later) w ≡ run later w'
      goes_on again e rest ahead = rw e (ahead rest)
      goes_on exits e rest ahead = cc rest

  -- A round that ends the loop: the key `!`, and the line `exit`.
  round_exits :
      (key : Option ℕ) (line : Bytes) (w u : World p)
      → round key line w ≡ (ok exits, u)
      → (key ≡ some b'!') × (line ≡ codes "exit") × (u ≡ at_prompt w)
  unfolding round
  round_exits none line w u h = cc h
  round_exits (some c) line w u h = elim (Bool-cases (c == b'!')) [
    | inl mark ↦
        let (line_exit, state) = on_line_exits line (at_prompt w) u (rw mark at h) in
        (ap some (eq_of_beq c b'!' mark), eq_of_beq line (codes "exit") line_exit, state)
    | inr other ↦ cc (rw other at h)
  ]

  -- The line `exit` ends the loop.
  run_exit :
      (later : List (Option ℕ × Bytes)) (w : World p)
      → run ((some b'!', codes "exit") ∷ later) w ≡ (ok exits, at_prompt w)
  unfolding run round on_line list_beq
  run_exit later w = refl

  -- Where the loop has come to the line `exit`.
  abbrev pub Ends : List (Option ℕ × Bytes) → World p → World p → Type 0
  Ends readings w u =
      (before : List (Option ℕ × Bytes)) × (later : List (Option ℕ × Bytes)) × (w' : World p)
      × (readings ≡ before ++ (some b'!', codes "exit") ∷ later)
      × (run before w ≡ (ok again, w'))
      × (u ≡ at_prompt w')

  Ends-later :
      (key : Option ℕ) (line : Bytes) (readings : List (Option ℕ × Bytes)) (w u : World p)
      → (round key line w).0 ≡ ok again
      → Ends readings (round key line w).1 u
      → Ends ((key, line) ∷ readings) w u
  unfolding run
  Ends-later key line readings w u e (before, later, w', split, ran, state) =
      ((key, line) ∷ before, later, w', ap (λ r. (key, line) ∷ r) split, rw e ran, state)

  run-Ends :
      (readings : List (Option ℕ × Bytes)) (w u : World p)
      → run readings w ≡ (ok exits, u)
      → Ends readings w u
  unfolding run
  run-Ends [] w u h = cc h
  run-Ends ((key, line) ∷ readings) w u h =
      let (next, e, rest) = bind-eq-ok (round key line) (go_on (run readings)) w h in
      ended next e rest (run-Ends readings (round key line w).1 u)
    where
      ended :
          (next : Next)
          → (round key line w).0 ≡ ok next
          → go_on (run readings) next (round key line w).1 ≡ (ok exits, u)
          → (run readings (round key line w).1 ≡ (ok exits, u)
              → Ends readings (round key line w).1 u)
          → Ends ((key, line) ∷ readings) w u
      ended again e rest ahead = Ends-later key line readings w u e (ahead rest)
      ended exits e rest ahead =
          let (marked, typed, state) =
            round_exits key line w u (ap (λ o. (o, (round key line w).1)) e ∙ rest) in
          ([], readings, w, rw (marked, typed) refl, refl, state)

  -- The loop ends exactly where it has run, with all rounds returning, up to a round with the key `!`
  -- and the line `exit`. The log is stopped then, and what comes later plays no part.
  pub run_iff :
      (readings : List (Option ℕ × Bytes)) (w u : World p)
      → (run readings w ≡ (ok exits, u)) ↔ Ends readings w u
  run_iff readings w u = (run-Ends readings w u, back)
    where
      back : Ends readings w u → run readings w ≡ (ok exits, u)
      back (before, later, w', split, ran, state) =
          ap (λ r. run r w) split
          ∙ run-append before ((some b'!', codes "exit") ∷ later) w w' ran
          ∙ run_exit later w'
          ∙ ap (λ v. (ok exits, v)) (sym state)
