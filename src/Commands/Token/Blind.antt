-- ===== src/Commands/Token/Blind.antt =====
-- The command `token` does not depend on the order of the maps.
use kuro_net.Prelude.{refl, Option, none, some, List, nat_eq, list_eq, ltb, ◌==◌, length}
use kuro_net.Prelude.Map.{lookup}
use kuro_net.Text.{Bytes, codes}
use kuro_net.Platform.{Platform}
use kuro_net.Exec.{gets, ok}
use kuro_net.Logger.{error, command}
use kuro_net.World.Reorder.{Blind, Blind-pure, Blind-gets, Blind-bind, Blind-then, Blind-if}
use kuro_net.Session
use kuro_net.Session.Blind.{Blind-log}
use kuro_net.Session.Blind as SessionBlind
use kuro_net.Tokens.{
  TokenType, permanent_token, session_token, temporary_token, generate, set_time_token,
}
use kuro_net.Tokens.Blind.{Blind-generate, Blind-set_time_token}
use kuro_net.Commands.Token.{
  Operation, help, create, execute, run_operation, create_token, make_token, make_temporary,
  get_help, part, operations,
}

module _ {p : Platform} where
  Blind-make_token : (kind : TokenType) → Blind {p = p} (make_token kind)
  unfolding make_token
  Blind-make_token kind = Blind-bind (generate kind) _ (Blind-generate kind) λ token.
      Blind-then (Session.create_token token) _ (SessionBlind.Blind-create_token token)
        (Blind-log command _)

  Blind-make_temporary : (parts : List Bytes) → Blind {p = p} (make_temporary parts)
  unfolding make_temporary
  Blind-make_temporary parts = Blind-if (ltb (length parts) 5) _ _ (Blind-log error _) (
      Blind-then (set_time_token (part parts 3) (part parts 4)) (make_token temporary_token)
        (Blind-set_time_token (part parts 3) (part parts 4)) (Blind-make_token temporary_token))

  Blind-create_token : Blind {p = p} create_token
  unfolding create_token
  Blind-create_token = Blind-bind (gets λ w. w.token_command) _ (Blind-gets _ λ w r. refl) λ parts.
      Blind-if (ltb (length parts) 3) _ _ (Blind-log command _) (
        Blind-if (part parts 2 == codes "-perm") _ _ (Blind-make_token permanent_token) (
          Blind-if (part parts 2 == codes "-sess") _ _ (Blind-make_token session_token) (
            Blind-if (part parts 2 == codes "-temp") _ _ (Blind-make_temporary parts)
              (Blind-log error _))))

  Blind-run_operation : (o : Option Operation) → Blind {p = p} (run_operation o)
  unfolding run_operation get_help
  Blind-run_operation none = Blind-pure tt
  Blind-run_operation (some help) = Blind-log command _
  Blind-run_operation (some create) = Blind-create_token

  pub Blind-execute : (cmd : List Bytes) → Blind {p = p} (execute cmd)
  unfolding execute
  Blind-execute cmd = Blind-if (ltb (length cmd) 2) _ _ (Blind-log error _) (
      Blind-then (λ w. (ok tt, record w { token_command = cmd }))
        (run_operation (lookup (part cmd 1) operations)) (record { at = λ w r. (r, refl) })
        (Blind-run_operation (lookup (part cmd 1) operations)))
