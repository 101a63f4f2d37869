-- ===== src/Tokens/Keeps.antt =====
-- The operations of `TokenHandler` keep what stands the log and whatever leaves the view alone.
use kuro_net.Prelude.{refl, Bool-cases, inl, inr}
use kuro_net.Prelude.Int.{ℤ, fits_int, ◌*ℕ◌}
use kuro_net.Text.{Bytes}
use kuro_net.Platform.{Platform}
use kuro_net.Exec.{lift}
use kuro_net.Session.Keeps.{
  Keeps, Keeps-bind, Stands, Keeps-lift, Keeps-then, Keeps-pure, Keeps-log,
  Keeps-random_generate_str,
}
use kuro_net.World.{World, log}
use kuro_net.Logger.{info}
use kuro_net.Random.{random_generate_str}
use kuro_net.Tokens.{
  TokenType, permanent_token, session_token, temporary_token, token_head, generate, set_time_token,
  set_seconds, unit_seconds,
}
use kuro_net.Tokens.Stoi.{stoi}

module _ {p : Platform} {S : Type 0} {look : World p → S} {P : S → Type 0}
    ⦃stands : Stands look P⦄ where
  Keeps-token_head : (kind : TokenType) → Keeps {p = p} look P (token_head kind)
  unfolding token_head
  Keeps-token_head permanent_token = record { at = λ w h. h }
  Keeps-token_head session_token = record { at = λ w h. h }
  Keeps-token_head temporary_token = record { at = λ w h. stands.rests w _ refl refl refl h }

  pub Keeps-generate : (kind : TokenType) → Keeps {p = p} look P (generate kind)
  unfolding generate
  Keeps-generate kind = Keeps-bind (token_head kind) _ (Keeps-token_head kind) λ head.
      Keeps-bind (random_generate_str 10) _ (Keeps-random_generate_str 10)
        λ random_part. Keeps-then (log info _) _ (Keeps-log info _) (Keeps-pure _)

  Keeps-set_seconds : (seconds : ℤ) → Keeps {p = p} look P (set_seconds seconds)
  unfolding set_seconds
  Keeps-set_seconds seconds = record {
    at = λ w v. elim (Bool-cases (fits_int seconds)) [
      | inl e ↦ rw (e, set_seconds) (stands.rests w _ refl refl refl v)
      | inr e ↦ rw (e, set_seconds) (stands.rests w _ refl refl refl v)
    ];
  }

  pub Keeps-set_time_token : (unit time : Bytes) → Keeps {p = p} look P (set_time_token unit time)
  unfolding set_time_token
  Keeps-set_time_token unit time = Keeps-bind (lift (stoi time)) _ (Keeps-lift (stoi time)) λ value.
      Keeps-bind (lift (unit_seconds unit)) _ (Keeps-lift (unit_seconds unit))
        λ seconds. Keeps-set_seconds (◌*ℕ◌ value seconds)
