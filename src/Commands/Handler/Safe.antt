-- ===== src/Commands/Handler/Safe.antt =====
-- Where a round of the loop has undefined behaviour.
use kuro_net.Prelude.{
  ℕ, ◌≡◌, ◌≢◌, ◌⊎◌, ◌↔◌, refl, sym, ap, ◌∙◌, inl, inr, true, false, Option, none, some, List, [],
  ◌∷◌, ◌++◌, nat_eq, list_eq, ◌==◌, Bool-cases, eq_of_beq, list_beq, arith,
}
use kuro_net.Prelude.Map.{lookup, emplace}
use kuro_net.Text.{Bytes, codes, is_empty}
use kuro_net.Platform.{Platform}
use kuro_net.Exec.{undefined, pure}
use kuro_net.Exec.Safe.{Safe-pure, after-safe, after-undefined}
use kuro_net.Tokens.Stoi.{is_space}
use kuro_net.World.{World}
use kuro_net.Commands.Token
use kuro_net.Commands.Token.{part}
use kuro_net.Commands.Token.Safe as TokenSafe
use kuro_net.Commands.Clients
use kuro_net.Commands.Clients.Safe as ClientsSafe
use kuro_net.Commands.Handler.{
  Executor, token_executor, client_executor, executors, again, round, run_line, on_line,
  command_partition, executor_valid, find_executor, run_executor, get_help, split_parts, at_prompt,
}
use kuro_net.Commands.Handler.Partition.{IsBlank}
use kuro_net.Commands.Handler.Rounds.{round_blank}

-- A line with no part is blank.
no_parts : (part line : Bytes) → split_parts part line ≡ [] → (part ≡ []) × IsBlank line
unfolding split_parts
no_parts [] [] e = (refl, tt)
no_parts (x ∷ part) [] e = cc
no_parts part (c ∷ line) e = elim (Bool-cases (is_space c)) [
  | inl space ↦ elim (Bool-cases (is_empty part)) [
    | inl empty ↦ (empty_of part empty, (space, (no_parts [] line (rw (space, empty) at e)).1))
    | inr full ↦ cc (rw (space, full) at e)
  ]
  | inr letter ↦ absurd (ended part c (no_parts (part ++ c ∷ []) line (rw letter at e)).0)
]
  where
    empty_of : (part : Bytes) → is_empty part ≡ true → part ≡ []
    empty_of [] e = refl
    empty_of (x ∷ part) e = cc

    ended : (part : Bytes) (c : ℕ) → part ++ c ∷ [] ≢ []
    ended [] c e = cc
    ended (x ∷ part) c e = cc

-- The parts are those of the command `token`, with a time that overflows.
abbrev pub IsOverflowLine : List Bytes → Type 0
IsOverflowLine parts = (part parts 0 ≡ codes "token") × TokenSafe.IsOverflow parts

-- The parts are those of the command `client`, with an approval that reads the iterator of an extracted
-- element.
abbrev pub IsExtractLine : {p : Platform} → List Bytes → World p → Type 0
IsExtractLine parts w = (part parts 0 ≡ codes "client") × ClientsSafe.ReadsExtracted parts w

-- A command that is undefined.
abbrev IsUndefinedLine : {p : Platform} → List Bytes → World p → Type 0
IsUndefinedLine parts w = IsOverflowLine parts ⊎ IsExtractLine parts w

-- A line of blanks that is not empty, or the line of such a command.
abbrev pub IsFatal : {p : Platform} → Bytes → World p → Type 0
IsFatal line w = ((line ≢ []) × IsBlank line) ⊎ IsUndefinedLine (split_parts [] line) w

token_named : (name : Bytes) → lookup name executors ≡ some token_executor → name ≡ codes "token"
unfolding lookup emplace list_beq
token_named name e = elim (Bool-cases (codes "token" == name)) [
  | inl same ↦ sym (eq_of_beq (codes "token") name same)
  | inr other ↦ elim (Bool-cases (codes "client" == name)) [
    | inl client ↦ cc (rw client at e)
    | inr neither ↦ cc (rw (neither, other) at e)
  ]
]

client_named : (name : Bytes) → lookup name executors ≡ some client_executor → name ≡ codes "client"
unfolding lookup emplace list_beq
client_named name e = elim (Bool-cases (codes "client" == name)) [
  | inl same ↦ sym (eq_of_beq (codes "client") name same)
  | inr other ↦ elim (Bool-cases (codes "token" == name)) [
    | inl token ↦ cc (rw (other, token) at e)
    | inr neither ↦ cc (rw (other, neither) at e)
  ]
]

-- The line is none that the handler itself knows.
word-ne :
    (line word name : Bytes)
    → part (split_parts [] word) 0 ≢ name
    → part (split_parts [] line) 0 ≡ name
    → (line == word) ≡ false
word-ne line word name other h = elim (Bool-cases (line == word)) [
  | inl same ↦ absurd (other (rw (sym (eq_of_beq line word same)) h))
  | inr differs ↦ differs
]

token_found : lookup (codes "token") executors ≡ some token_executor
unfolding lookup emplace list_beq
token_found = refl

client_found : lookup (codes "client") executors ≡ some client_executor
unfolding lookup emplace list_beq
client_found = refl

module _ {p : Platform} where
  run_executor-safe :
      (o : Option Executor) (name : Bytes) (rest : List Bytes) (w : World p)
      → lookup name executors ≡ o
      → (run_executor o name (name ∷ rest) w).0 ≡ undefined
      → IsUndefinedLine (name ∷ rest) w
  unfolding run_executor
  run_executor-safe none name rest w known e = cc
  run_executor-safe (some token_executor) name rest w known e =
      let r = Token.execute (name ∷ rest) w in
      inl (
        token_named name known,
        after-safe (r.0) (r.1) (λ _. pure true) ((TokenSafe.Safe-execute (name ∷ rest)).at w)
            (λ _. Safe-pure true) e,
      )
  run_executor-safe (some client_executor) name rest w known e =
      let r = Clients.execute (name ∷ rest) w in
      inr (
        client_named name known,
        after-safe (r.0) (r.1) (λ _. pure true) (ClientsSafe.execute-safe (name ∷ rest) w)
            (λ _. Safe-pure true) e,
      )

  find_executor-safe :
      (parts : List Bytes) (w : World p)
      → (find_executor parts w).0 ≡ undefined
      → (parts ≡ []) ⊎ IsUndefinedLine parts w
  unfolding find_executor
  find_executor-safe [] w e = inl refl
  find_executor-safe (name ∷ rest) w e =
      inr (run_executor-safe (lookup name executors) name rest w refl e)

  -- An approval depends on the manager alone.
  same_fatal :
      (line : Bytes) (v w : World p)
      → v.manager ≡ w.manager
      → IsUndefinedLine (split_parts [] line) v
      → IsUndefinedLine (split_parts [] line) w
  same_fatal line v w same (inl over) = inl over
  same_fatal line v w same (inr (named, reads)) =
      inr (named, ClientsSafe.same-ReadsExtracted (split_parts [] line) v w same reads)

  run_line-safe :
      (line : Bytes) (w : World p) → line ≢ [] → (run_line line w).0 ≡ undefined → IsFatal line w
  unfolding run_line executor_valid command_partition
  run_line-safe line w full e =
      let parts = split_parts [] line in
      let parted = record w { command_parts = parts } in
      let r = find_executor parts parted in
      elim (after-safe (r.0) (r.1) (λ valid. pure again) (find_executor-safe parts parted)
        (λ valid. Safe-pure again) e) [
          | inl empty ↦ inl (full, (no_parts [] line empty).1)
          | inr over ↦ inr (same_fatal line parted w refl over)
        ]

  on_line-safe : (line : Bytes) (w : World p) → (on_line line w).0 ≡ undefined → IsFatal line w
  unfolding on_line get_help
  on_line-safe line w e = elim (Bool-cases (line == codes "exit")) [
    | inl exit ↦ cc (rw (on_line, exit) at e)
    | inr other ↦ elim (Bool-cases (line == codes "help")) [
      | inl help ↦ cc (rw (on_line, other, help) at e)
      | inr more ↦ elim (Bool-cases (is_empty line)) [
        | inl empty ↦ cc (rw (on_line, other, more, empty) at e)
        | inr full ↦
            run_line-safe line w (λ n. cc (rw n at full)) (rw (on_line, other, more, full) at e)
      ]
    ]
  ]

  undefined-find_executor :
      (parts : List Bytes) (w : World p)
      → IsUndefinedLine parts w
      → (find_executor parts w).0 ≡ undefined
  unfolding find_executor run_executor
  undefined-find_executor [] w (inl h) = absurd (omega (arith, h.1.long))
  undefined-find_executor [] w (inr h) = absurd (omega (arith, h.1.long))
  undefined-find_executor (name ∷ rest) w (inl h) =
      rw (ap (λ n. lookup n executors) h.0 ∙ token_found) (
        after-undefined (Token.execute (name ∷ rest) w) (λ _. pure true)
          (TokenSafe.overflow-execute (name ∷ rest) w h.1))
  undefined-find_executor (name ∷ rest) w (inr h) =
      rw (ap (λ n. lookup n executors) h.0 ∙ client_found) (
        after-undefined (Clients.execute (name ∷ rest) w) (λ _. pure true)
          (ClientsSafe.extracted-execute (name ∷ rest) w h.1))

  -- The line of such a command goes to `run_line`.
  undefined-passes :
      (line : Bytes) (w : World p)
      → IsUndefinedLine (split_parts [] line) w
      → ((line == codes "exit") ≡ false)
        × ((line == codes "help") ≡ false)
        × (is_empty line ≡ false)
  unfolding split_parts list_beq
  undefined-passes [] w (inl h) = absurd (omega (arith, h.1.long))
  undefined-passes [] w (inr h) = absurd (omega (arith, h.1.long))
  undefined-passes (c ∷ line) w (inl h) = (
    word-ne (c ∷ line) (codes "exit") (codes "token") (λ e. cc) h.0,
    word-ne (c ∷ line) (codes "help") (codes "token") (λ e. cc) h.0,
    refl,
  )
  undefined-passes (c ∷ line) w (inr h) = (
    word-ne (c ∷ line) (codes "exit") (codes "client") (λ e. cc) h.0,
    word-ne (c ∷ line) (codes "help") (codes "client") (λ e. cc) h.0,
    refl,
  )

  undefined-on_line :
      (line : Bytes) (w : World p)
      → IsUndefinedLine (split_parts [] line) w
      → (on_line line w).0 ≡ undefined
  unfolding on_line run_line executor_valid command_partition
  undefined-on_line line w h =
      let parts = split_parts [] line in
      let parted : World p = record w { command_parts = parts } in
      let (no_exit, no_help, full) = undefined-passes line w h in
      rw (on_line, no_exit, no_help, full)
        (after-undefined (find_executor parts parted) (λ valid. pure again)
          (undefined-find_executor parts parted (same_fatal line w parted refl h)))

  pub round_undefined_iff :
      (key : Option ℕ) (line : Bytes) (w : World p)
      → ((round key line w).0 ≡ undefined) ↔ ((key ≡ some b'!') × IsFatal line w)
  unfolding round
  round_undefined_iff key line w = (there key, λ (mark, fatal). rw mark (back fatal))
    where
      restore : IsFatal line (at_prompt w) → IsFatal line w
      restore (inl blank) = inl blank
      restore (inr h) = inr (same_fatal line (at_prompt w) w refl h)

      there :
          (key : Option ℕ) → (round key line w).0 ≡ undefined → (key ≡ some b'!') × IsFatal line w
      there none e = cc
      there (some c) e = elim (Bool-cases (c == b'!')) [
        | inl mark ↦ (
          ap some (eq_of_beq c b'!' mark),
          restore (on_line-safe line (at_prompt w) (rw (round, mark) at e)),
        )
        | inr other ↦ cc (rw (round, other) at e)
      ]

      back : IsFatal line w → (round (some b'!') line w).0 ≡ undefined
      back (inl (full, blank)) = round_blank line w full blank
      back (inr h) = undefined-on_line line (at_prompt w) (same_fatal line w (at_prompt w) refl h)
