-- ===== src/Commands/Token.antt =====
-- include/core/commands/token_command.hpp and src/core/commands/token_command.cpp.
pub mod Safe
pub mod Blind
pub mod Outcomes
pub mod Keeps
use kuro_net.Prelude.{
  ℕ, ◌+◌, Bool, true, false, Option, none, some, List, [], ◌∷◌, ◌++◌, nat_eq, list_eq, ltb, ◌==◌,
  if◌then◌else◌, length, get_or,
}
use kuro_net.Prelude.Map.{lookup, emplace}
use kuro_net.Text.{Bytes, codes}
use kuro_net.Logger.{error, command}
use kuro_net.Platform.{Platform}
use kuro_net.Exec.{Exec, Outcome, ok, ◌>>=◌, ◌>>◌, pure, gets}
use kuro_net.Tokens.{
  TokenType, permanent_token, session_token, temporary_token, generate, set_time_token,
}
use kuro_net.Session
use kuro_net.World.{World, log}

-- The functions that `operations` maps names to.
pub data Operation : Type 0 where
  help create : Operation

-- `init_operations`, on the empty map.
abbrev pub operations : List (Bytes × Operation)
operations = emplace (codes "create") create (emplace (codes "help") help [])

-- `operations` as the text of the help lists it.
abbrev pub names : {A : Type 0} → List (Bytes × A) → Bytes
names [] = []
names ((name, _) ∷ entries) = name ++ (codes "\n" ++ names entries)

-- `command[i]`, for an `i` below the size.
abbrev pub part : List Bytes → ℕ → Bytes
part parts i = get_or parts i []

module _ {p : Platform} where
  unfoldable pub get_help : Exec (World p) (Unit {0})
  get_help =
      log command
        (codes "Type \"help\" for see that message\n" ++ (codes "Token help\n" ++ names operations))

  -- Behind the choice of the type.
  pub make_token : TokenType → Exec (World p) (Unit {0})
  make_token level = do
    token ← generate level
    Session.create_token token
    log command (codes "New token created: " ++ token)

  -- `token create -temp -day 1`.
  make_temporary : List Bytes → Exec (World p) (Unit {0})
  unfolding make_token
  make_temporary parts =
      if ltb (length parts) 5
      then log error (codes "Command Error: token create -temp -<time_range> -<time>")
      else (set_time_token (part parts 3) (part parts 4) >> make_token temporary_token)

  unfoldable pub create_token : Exec (World p) (Unit {0})
  unfolding make_token make_temporary
  create_token = do
    parts ← gets λ w. w.token_command
    if ltb (length parts) 3
        then log command
            (codes "Supported token types:\n-perm: permanent\n-sess: session\n-temp: temporary")
        else if part parts 2 == codes "-perm"
        then make_token permanent_token
        else if part parts 2 == codes "-sess"
        then make_token session_token
        else if part parts 2 == codes "-temp"
        then make_temporary parts
        else log error (codes "Unknown token type: " ++ part parts 2)

  -- `it->second()`, if the name is known.
  run_operation : Option Operation → Exec (World p) (Unit {0})
  run_operation none = pure tt
  run_operation (some help) = get_help
  run_operation (some create) = create_token

  unfoldable pub execute : List Bytes → Exec (World p) (Unit {0})
  unfolding run_operation
  execute cmd =
      if ltb (length cmd) 2
      then log error (codes "Type \"token help\"")
      else (set_command >> run_operation (lookup (part cmd 1) operations))
    where
      set_command : Exec (World p) (Unit {0})
      set_command w = (ok tt, record w { token_command = cmd })
