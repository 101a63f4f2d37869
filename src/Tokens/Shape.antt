-- ===== src/Tokens/Shape.antt =====
-- The text of a token, for every kind of token.
use kuro_net.Prelude.{ℕ, ◌+◌, ◌≡◌, refl, ◌++◌, nat_eq, list_eq, length, All, list_beq}
use kuro_net.Prelude.Int.{add_ℕ, to_int}
use kuro_net.Text.{Bytes, codes, to_string}
use kuro_net.Platform.{Platform}
use kuro_net.Random.Shape.{
  random_text, random_generate_str_lem, length-random_text, random_text-IsLetter, IsLetter,
}
use kuro_net.Exec.{ok}
use kuro_net.Tokens.{
  TokenType, permanent_token, session_token, temporary_token, generate, to_string_int,
}
use kuro_net.World.{World}
use mathlib.Core.List.{append_assoc}

-- A token text: a head, then a random part of ten letters and its hash, with dots between them.
pub record IsToken (p : Platform) (head token : Bytes) : Type 0 where
  pub random_part : Bytes
  pub ten : length random_part ≡ 10
  pub letters : All IsLetter random_part
  pub text :
      token ≡ head ++ (codes "." ++ (random_part ++ (codes "." ++ to_string (p.hash random_part))))

signed_text : Platform → Bytes → ℕ → Bytes
signed_text p start n =
    start
    ++ (codes "." ++ (random_text p 10 n ++ (codes "." ++ to_string (p.hash (random_text p 10 n)))))

signed_text-IsToken :
    (p : Platform) (start : Bytes) (n : ℕ) → IsToken p start (signed_text p start n)
unfolding signed_text
signed_text-IsToken p start n = record {
  random_part = random_text p 10 n;
  ten = length-random_text p 10 n;
  letters = random_text-IsLetter p 10 n;
  text = refl;
}

module _ {p : Platform} where
  -- The head tells the kind of the token; that of a temporary one has the second in which it ends, as an `int`.
  pub head : TokenType → World p → Bytes
  head permanent_token w = codes "perm"
  head session_token w = codes "sess"
  head temporary_token w =
      codes "temp." ++ to_string_int (to_int (add_ℕ (p.steady_now w.steady_reads) w.token_time))

  -- `generate` returns a token text with the head of its kind, and leaves the clients and the tokens alone.
  pub generate_lem :
      (kind : TokenType) (w : World p)
      → (token : Bytes) × (v : World p) × (generate kind w ≡ (ok token, v))
        × IsToken p (head kind w) token
        × (v.manager ≡ w.manager)
  unfolding generate list_beq head signed_text
  generate_lem permanent_token w = (
    signed_text p (codes "perm") w.draws,
    (generate permanent_token w).1,
    rw (random_generate_str_lem 10 w, generate) refl,
    signed_text-IsToken p (codes "perm") w.draws,
    rw (random_generate_str_lem 10 w, generate) refl,
  )
  generate_lem session_token w = (
    signed_text p (codes "sess") w.draws,
    (generate session_token w).1,
    rw (random_generate_str_lem 10 w, generate) refl,
    signed_text-IsToken p (codes "sess") w.draws,
    rw (random_generate_str_lem 10 w, generate) refl,
  )
  generate_lem temporary_token w =
      let start = head temporary_token w in
      let later : World p = record w { steady_reads = w.steady_reads + 1 } in
      (
        signed_text p start w.draws,
        (generate temporary_token w).1,
        rw (random_generate_str_lem 10 later, generate) (simp append_assoc),
        signed_text-IsToken p start w.draws,
        rw (random_generate_str_lem 10 later, generate) refl,
      )
