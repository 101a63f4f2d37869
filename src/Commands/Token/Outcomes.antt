-- ===== src/Commands/Token/Outcomes.antt =====
-- What `token create` does to the tokens, and where it throws.
use kuro_net.Prelude.{
  ℕ, suc, ◌≡◌, ◌≢◌, refl, false, List, [], ◌∷◌, ◌++◌, nat_eq, list_eq, arith, length, list_beq, ltb,
}
use kuro_net.Prelude.Map.{lookup, emplace}
use kuro_net.Text.{Bytes, codes}
use kuro_net.Platform.{Platform}
use kuro_net.Exec.{Outcome, ok, throw, Exception, ◌>>=◌}
use kuro_net.Session.{create_token}
use kuro_net.Tokens.{TokenType, permanent_token, session_token, temporary_token, set_time_token}
use kuro_net.Tokens.Shape.{IsToken, head, generate_lem}
use kuro_net.Tokens.Stoi.{stoi}
use kuro_net.World.{World}
use kuro_net.Commands.Token.{execute, make_token}

-- The flag that asks for a kind of token.
abbrev pub flag : TokenType → Bytes
flag permanent_token = codes "-perm"
flag session_token = codes "-sess"
flag temporary_token = codes "-temp"

-- The tests of the size pass.
long_enough :
    (n : ℕ)
    → (ltb (suc (suc (suc n))) 2 ≡ false)
      × (ltb (suc (suc (suc n))) 3 ≡ false)
      × (ltb (suc (suc (suc (suc (suc n))))) 5 ≡ false)
long_enough n = (ground arith, ground arith, ground arith)

module _ {p : Platform} where
  -- A token of the kind is made, and put behind the active ones.
  pub record Issues (kind : TokenType) (w : World p) (r : Outcome (Unit {0}) × World p)
      : Type 0 where
    pub returns : r.0 ≡ ok tt
    pub token : Bytes
    pub shape : IsToken p (head kind w) token
    pub issued :
        r.1.manager ≡ record (w.manager) { active_tokens = w.manager.active_tokens ++ token ∷ [] }

  make_token-Issues : (kind : TokenType) (w : World p) → Issues kind w (make_token kind w)
  unfolding make_token create_token
  make_token-Issues kind w =
      let (token, v, e, shape, kept) = generate_lem kind w in
      record {
        returns = rw (e, make_token) refl;
        token = token;
        shape = shape;
        issued = rw (e, make_token, kept) refl;
      }

  -- The process after `this->command = cmd`.
  abbrev pub commanded : List Bytes → World p → World p
  commanded cmd w = record w { token_command = cmd }

  -- `token create -perm` and `token create -sess`, whatever follows, return, and add one token of the
  -- kind to the active ones; the clients stay as they are.
  pub execute-Issues :
      (kind : TokenType) (name : Bytes) (rest : List Bytes) (w : World p)
      → kind ≢ temporary_token
      → let cmd = name ∷ codes "create" ∷ flag kind ∷ rest in
        Issues kind (commanded cmd w) (execute cmd w)
  unfolding execute list_beq lookup emplace kuro_net.Commands.Token.create_token
  execute-Issues permanent_token name rest w h =
      rw (execute, (long_enough (length rest)).0, (long_enough (length rest)).1)
        (make_token-Issues permanent_token _)
  execute-Issues session_token name rest w h =
      rw (execute, (long_enough (length rest)).0, (long_enough (length rest)).1)
        (make_token-Issues session_token _)
  execute-Issues temporary_token name rest w h = absurd (h refl)

  -- `token create -temp` with a time that `std::stoi` does not read throws what it throws; nothing
  -- on the way catches the exception. The maps and the time of tokens stay as they are.
  pub execute_bad_time :
      (name unit time : Bytes) (rest : List Bytes) (w : World p) (e : Exception)
      → stoi time ≡ throw e
      → let cmd = name ∷ codes "create" ∷ codes "-temp" ∷ unit ∷ time ∷ rest in
        execute cmd w ≡ (throw e, commanded cmd w)
  unfolding execute list_beq lookup emplace set_time_token kuro_net.Commands.Token.create_token
  execute_bad_time name unit time rest w e bad =
      let n = suc (suc (length rest)) in
      rw (execute, (long_enough n).0, (long_enough n).1, (long_enough (length rest)).2, bad, ◌>>=◌)
