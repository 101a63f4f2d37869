-- ===== src/Commands/Token/Safe.antt =====
-- The command `token` has undefined behaviour exactly where the time of the tokens overflows.
use kuro_net.Prelude.{
  ℕ, ◌≡◌, ◌≤◌, refl, false, Option, none, some, List, nat_eq, list_eq, ltb, ◌==◌, length, eq_of_beq,
  list_beq, arith,
}
use kuro_net.Prelude.Map.{lookup}
use kuro_net.Text.{Bytes, codes}
use kuro_net.Platform.{Platform}
use kuro_net.Exec.{undefined}
use kuro_net.Exec.Safe.{Safe, Safe-if, Safe-then, Safe-bind, Safe-weaken}
use kuro_net.Logger.{error, command}
use kuro_net.World.{World}
use kuro_net.Session
use kuro_net.Session.Safe.{Safe-log}
use kuro_net.Tokens.{TokenType, temporary_token, generate, set_time_token}
use kuro_net.Tokens.Safe.{Overflows, Safe-generate, Safe-set_time_token, Overflows-set_time_token}
use kuro_net.Commands.Token.{
  Operation, help, create, execute, run_operation, create_token, make_token, make_temporary,
  get_help, part, operations,
}

-- The parts are those of `token create -temp`, with a unit and a time that overflow.
pub record IsOverflow (cmd : List Bytes) : Type 0 where
  pub long : 5 ≤ length cmd
  pub creates : lookup (part cmd 1) operations ≡ some create
  pub temporary : part cmd 2 ≡ codes "-temp"
  pub over : Overflows (part cmd 3) (part cmd 4)

long_of : (n k : ℕ) → ltb n k ≡ false → k ≤ n
long_of n k e = ground arith

module _ {p : Platform} where
  Safe-make_token : {X : Type 0} (kind : TokenType) → Safe {S = World p} X (make_token kind)
  unfolding make_token Session.create_token
  Safe-make_token kind = Safe-bind (generate kind) _ (Safe-generate kind) λ token.
      Safe-then (Session.create_token token) _ (record { at = λ w e. cc }) (Safe-log command _)

  Safe-make_temporary :
      {X : Type 0} (parts : List Bytes)
      → (5 ≤ length parts → Overflows (part parts 3) (part parts 4) → X)
      → Safe {S = World p} X (make_temporary parts)
  unfolding make_temporary
  Safe-make_temporary parts excuse =
      Safe-if (ltb (length parts) 5) _ _ (λ short. Safe-log error _)
        λ long.
          Safe-then (set_time_token (part parts 3) (part parts 4)) (make_token temporary_token)
            (Safe-weaken (set_time_token (part parts 3) (part parts 4))
              (excuse (long_of (length parts) 5 long))
              (Safe-set_time_token (part parts 3) (part parts 4)))
            (Safe-make_token temporary_token)

  -- `create_token`, with the parts that it reads.
  create_token-safe :
      (w : World p)
      → (create_token w).0 ≡ undefined
      → lookup (part w.token_command 1) operations ≡ some create
      → IsOverflow w.token_command
  unfolding create_token
  create_token-safe w e creates =
      let parts = w.token_command in
      (Safe-if (ltb (length parts) 3) _ _ (λ short. Safe-log command _)
          λ long.
            Safe-if (part parts 2 == codes "-perm") _ _ (λ perm. Safe-make_token _)
              λ other.
                Safe-if (part parts 2 == codes "-sess") _ _ (λ sess. Safe-make_token _)
                  λ more.
                    Safe-if (part parts 2 == codes "-temp") _ _
                      (λ temp. Safe-make_temporary parts λ enough over. record {
                        long = enough;
                        creates = creates;
                        temporary = eq_of_beq (part parts 2) (codes "-temp") temp;
                        over = over;
                      })
                      (λ unknown. Safe-log error _)).at
        w e

  run_operation-safe :
      (o : Option Operation) (w : World p)
      → lookup (part w.token_command 1) operations ≡ o
      → (run_operation o w).0 ≡ undefined
      → IsOverflow w.token_command
  unfolding run_operation get_help
  run_operation-safe none w known e = cc
  run_operation-safe (some help) w known e = cc
  run_operation-safe (some create) w known e = create_token-safe w e known

  pub Safe-execute : (cmd : List Bytes) → Safe {S = World p} (IsOverflow cmd) (execute cmd)
  unfolding execute
  Safe-execute cmd =
      Safe-if (ltb (length cmd) 2) _ _ (λ short. Safe-log error _)
        λ long. record {
          at = λ w e.
              run_operation-safe (lookup (part cmd 1) operations) (record w { token_command = cmd })
                refl e;
        }

  pub overflow-execute :
      (cmd : List Bytes) (w : World p) → IsOverflow cmd → (execute cmd w).0 ≡ undefined
  unfolding execute create_token run_operation make_temporary list_beq
  overflow-execute cmd w h =
      let two : ltb (length cmd) 2 ≡ false = ground (arith, h.long) in
      let three : ltb (length cmd) 3 ≡ false = ground (arith, h.long) in
      let five : ltb (length cmd) 5 ≡ false = ground (arith, h.long) in
      rw
        (
          two,
          h.creates,
          three,
          h.temporary,
          five,
          Overflows-set_time_token (part cmd 3) (part cmd 4) (record w { token_command = cmd })
              h.over,
        )
        refl
