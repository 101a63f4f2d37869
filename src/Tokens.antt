-- ===== src/Tokens.antt =====
-- `TokenHandler` (include/core/UniqueUtils.hpp, src/core/UniqueUtils.cpp): the time that temporary
-- tokens last, and the text of a token.
pub mod Safe
pub mod Blind
pub mod Stoi
pub mod Shape
pub mod Keeps
pub mod Bounds
use kuro_net.Prelude.{
  ℕ, ◌+◌, ◌*◌, Bool, true, false, List, [], ◌∷◌, ◌++◌, nat_eq, list_eq, ◌==◌, if◌then◌else◌,
}
use kuro_net.Prelude.Int.{ℤ, pos, negsuc, ◌*ℕ◌, fits_int, add_ℕ, to_int}
use kuro_net.Text.{Bytes, codes, to_string}
use kuro_net.Logger.{info}
use kuro_net.Platform.{Platform}
use kuro_net.Exec.{
  Exec, Outcome, ok, throw, undefined, Exception, invalid_argument, ◌>>=◌, ◌>>◌, pure, gets, lift,
}
use kuro_net.Random.{random_generate_str}
use kuro_net.World.{World, log}
use Stoi.{stoi}

pub data TokenType : Type 0 where
  permanent_token session_token temporary_token : TokenType

-- `std::to_string` of an `int`.
unfoldable pub to_string_int : ℤ → Bytes
to_string_int (pos n) = to_string n
to_string_int (negsuc n) = codes "-" ++ to_string (n + 1)

-- The factor of a unit of time, in seconds.
unfoldable pub unit_seconds : Bytes → Outcome ℕ
unit_seconds unit =
    if unit == codes "-minute"
    then ok 60
    else if unit == codes "-hour"
    then ok (60 * 60)
    else if unit == codes "-day"
    then ok (60 * 60 * 24)
    else throw (invalid_argument (codes "Unknown time unit"))

module _ {p : Platform} where
  -- A product of two `int`s that does not fit is undefined.
  set_seconds : ℤ → Exec (World p) (Unit {0})
  set_seconds seconds w =
      if fits_int seconds then (ok tt, record w { token_time = seconds }) else (undefined, w)

  unfoldable pub set_time_token : Bytes → Bytes → Exec (World p) (Unit {0})
  unfolding unit_seconds set_seconds
  set_time_token unit time = do
    value ← lift (stoi time)
    seconds ← lift (unit_seconds unit)
    set_seconds (◌*ℕ◌ value seconds)

  -- `std::chrono::steady_clock::now()`.
  steady_now : Exec (World p) ℕ
  steady_now w = (ok (p.steady_now w.steady_reads), record w { steady_reads = w.steady_reads + 1 })

  -- The `switch`: the kind of the token, and the time where it is temporary.
  token_head : TokenType → Exec (World p) (Bytes × Bytes)
  unfolding steady_now to_string_int
  token_head permanent_token = pure (codes "perm", [])
  token_head session_token = pure (codes "sess", [])
  token_head temporary_token = do
    now ← steady_now
    token_time ← gets λ w. w.token_time
    pure (codes "temp", to_string_int (to_int (add_ℕ now token_time)))

  unfoldable pub generate : TokenType → Exec (World p) Bytes
  unfolding token_head
  generate token = do
    (type_token, tt_time) ← token_head token
    random_part ← random_generate_str 10
    let signature = to_string (p.hash random_part)
    let timed : Bytes = if type_token == codes "temp" then tt_time ++ codes "." else []
    let res_token =
        type_token ++ (codes "." ++ (timed ++ (random_part ++ (codes "." ++ signature))))
    log info (codes "New token was created send this token your teammate: " ++ res_token)
    pure res_token
