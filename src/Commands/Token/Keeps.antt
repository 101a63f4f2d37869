-- ===== src/Commands/Token/Keeps.antt =====
-- The command `token` keeps what stands the changes of the session.
use kuro_net.Prelude.{refl, Option, none, some, List, nat_eq, list_eq, ltb, ◌==◌, length}
use kuro_net.Prelude.Map.{lookup}
use kuro_net.Text.{Bytes, codes}
use kuro_net.Platform.{Platform}
use kuro_net.Exec.{ok, gets}
use kuro_net.Logger.{error, command}
use kuro_net.World.{World}
use kuro_net.Session
use kuro_net.Session.Keeps.{
  Keeps, Keeps-pure, Keeps-log, Keeps-if, Keeps-then, Keeps-bind, Stands, Keeps-gets,
}
use kuro_net.Session.Closed.{Closed, Keeps-create_token}
use kuro_net.Tokens.{TokenType, temporary_token, generate, set_time_token}
use kuro_net.Tokens.Keeps.{Keeps-generate, Keeps-set_time_token}
use kuro_net.Commands.Token.{
  Operation, help, create, execute, run_operation, create_token, make_token, make_temporary,
  get_help, part, operations,
}

module _ {p : Platform} {S : Type 0} {look : World p → S} {P : S → Type 0}
    {allows : Bytes → Bytes → Type 0} ⦃stands : Stands look P⦄ (closed : Closed allows look P) where
  Keeps-make_token : (kind : TokenType) → Keeps {p = p} look P (make_token kind)
  unfolding make_token
  Keeps-make_token kind = Keeps-bind (generate kind) _ (Keeps-generate kind) λ token.
      Keeps-then (Session.create_token token) _ (Keeps-create_token closed token)
        (Keeps-log command _)

  Keeps-make_temporary : (parts : List Bytes) → Keeps {p = p} look P (make_temporary parts)
  unfolding make_temporary
  Keeps-make_temporary parts = Keeps-if (ltb (length parts) 5) _ _ (Keeps-log error _) (
      Keeps-then (set_time_token (part parts 3) (part parts 4)) (make_token temporary_token)
        (Keeps-set_time_token (part parts 3) (part parts 4)) (Keeps-make_token temporary_token))

  Keeps-create : Keeps {p = p} look P create_token
  unfolding create_token
  Keeps-create = Keeps-bind (gets λ w. w.token_command) _ (Keeps-gets _) λ parts.
      Keeps-if (ltb (length parts) 3) _ _ (Keeps-log command _) (
        Keeps-if (part parts 2 == codes "-perm") _ _ (Keeps-make_token _) (
          Keeps-if (part parts 2 == codes "-sess") _ _ (Keeps-make_token _) (
            Keeps-if (part parts 2 == codes "-temp") _ _ (Keeps-make_temporary parts)
              (Keeps-log error _))))

  Keeps-run_operation : (o : Option Operation) → Keeps {p = p} look P (run_operation o)
  unfolding run_operation get_help
  Keeps-run_operation none = Keeps-pure tt
  Keeps-run_operation (some help) = Keeps-log command _
  Keeps-run_operation (some create) = Keeps-create

  pub Keeps-execute : (cmd : List Bytes) → Keeps {p = p} look P (execute cmd)
  unfolding execute
  Keeps-execute cmd = Keeps-if (ltb (length cmd) 2) _ _ (Keeps-log error _) (
      Keeps-then (λ w. (ok tt, record w { token_command = cmd }))
        (run_operation (lookup (part cmd 1) operations))
        (record { at = λ w h. stands.rests w _ refl refl refl h })
        (Keeps-run_operation (lookup (part cmd 1) operations)))
