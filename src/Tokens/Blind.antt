-- ===== src/Tokens/Blind.antt =====
-- The text and the time of tokens do not depend on the order of the maps.
use kuro_net.Prelude.{inl, inr, refl, Bool-cases}
use kuro_net.Prelude.Int.{ℤ, fits_int, ◌*ℕ◌}
use kuro_net.Text.{Bytes}
use kuro_net.Platform.{Platform}
use kuro_net.Exec.{lift}
use kuro_net.Random.{random_generate_str}
use kuro_net.World.Reorder.{Blind, Blind-pure, Blind-lift, Blind-bind}
use kuro_net.Session.Blind.{Blind-random_generate_str}
use kuro_net.Tokens.{
  TokenType, permanent_token, session_token, temporary_token, token_head, generate, set_time_token,
  set_seconds, unit_seconds,
}
use kuro_net.Tokens.Stoi.{stoi}

module _ {p : Platform} where
  Blind-set_seconds : (seconds : ℤ) → Blind {p = p} (set_seconds seconds)
  unfolding set_seconds
  Blind-set_seconds seconds = record {
    at = λ w r. elim (Bool-cases (fits_int seconds)) [
      | inl inside ↦ rw (set_seconds, inside) (r, refl)
      | inr outside ↦ rw (set_seconds, outside) (r, refl)
    ];
  }

  pub Blind-set_time_token : (unit time : Bytes) → Blind {p = p} (set_time_token unit time)
  unfolding set_time_token
  Blind-set_time_token unit time = Blind-bind (lift (stoi time)) _ (Blind-lift (stoi time)) λ value.
      Blind-bind (lift (unit_seconds unit)) _ (Blind-lift (unit_seconds unit))
        λ seconds. Blind-set_seconds (◌*ℕ◌ value seconds)

  Blind-token_head : (kind : TokenType) → Blind {p = p} (token_head kind)
  unfolding token_head
  Blind-token_head permanent_token = Blind-pure _
  Blind-token_head session_token = Blind-pure _
  Blind-token_head temporary_token = record { at = λ w r. (r, refl) }

  pub Blind-generate : (kind : TokenType) → Blind {p = p} (generate kind)
  unfolding generate
  Blind-generate kind = Blind-bind (token_head kind) _ (Blind-token_head kind) λ head.
      Blind-bind (random_generate_str 10) _ (Blind-random_generate_str 10)
        λ random_part. record { at = λ w r. (r, refl) }
