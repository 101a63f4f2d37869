-- ===== src/Tokens/Safe.antt =====
-- The time of tokens has undefined behaviour exactly where the product overflows.
use kuro_net.Prelude.{ℕ, ◌≡◌, ◌≢◌, inl, inr, refl, false, nat_eq, list_eq, ◌==◌, Bool-cases}
use kuro_net.Prelude.Int.{ℤ, fits_int, ◌*ℕ◌}
use kuro_net.Text.{Bytes, codes}
use kuro_net.Platform.{Platform}
use kuro_net.Exec.{ok, undefined, Outcome-cases}
use kuro_net.Exec.Safe.{Safe, Safe-pure, Safe-bind, Safe-then}
use kuro_net.Logger.{info}
use kuro_net.World.{World, log}
use kuro_net.Random.{random_generate_str}
use kuro_net.Session.Safe.{Safe-log, Safe-random_generate_str}
use kuro_net.Tokens.{
  TokenType, permanent_token, session_token, temporary_token, token_head, generate, set_time_token,
  set_seconds, unit_seconds,
}
use kuro_net.Tokens.Stoi.{stoi}
use kuro_net.Tokens.Stoi.Defined.{stoi_defined}

unit_seconds_defined : (unit : Bytes) → unit_seconds unit ≢ undefined
unfolding unit_seconds
unit_seconds_defined unit e = elim (Bool-cases (unit == codes "-minute")) [
  | inl minute ↦ cc (rw minute at e)
  | inr other ↦ elim (Bool-cases (unit == codes "-hour")) [
    | inl hour ↦ cc (rw (other, hour) at e)
    | inr more ↦ elim (Bool-cases (unit == codes "-day")) [
      | inl day ↦ cc (rw (other, more, day) at e)
      | inr rest ↦ cc (rw (other, more, rest) at e)
    ]
  ]
]

-- The time is a number and the unit is known, but the seconds do not fit an `int`.
pub record Overflows (unit time : Bytes) : Type 0 where
  pub value : ℤ
  pub seconds : ℕ
  pub read : stoi time ≡ ok value
  pub known : unit_seconds unit ≡ ok seconds
  pub too_large : fits_int (◌*ℕ◌ value seconds) ≡ false

module _ {p : Platform} where
  set_time_token-Overflows :
      (unit time : Bytes) (w : World p)
      → (set_time_token unit time w).0 ≡ undefined
      → Overflows unit time
  unfolding set_time_token set_seconds
  set_time_token-Overflows unit time w e = elim (Outcome-cases (stoi time)) [
    | inl (z, reads) ↦ elim (Outcome-cases (unit_seconds unit)) [
      | inl (k, known) ↦ elim (Bool-cases (fits_int (◌*ℕ◌ z k))) [
        | inl inside ↦ cc (rw (set_time_token, reads, known, inside) at e)
        | inr outside ↦ record {
          value = z;
          seconds = k;
          read = reads;
          known = known;
          too_large = outside;
        }
      ]
      | inr (inl (x, bad)) ↦ cc (rw (set_time_token, reads, bad) at e)
      | inr (inr bad) ↦ absurd (unit_seconds_defined unit bad)
    ]
    | inr (inl (x, bad)) ↦ cc (rw (set_time_token, bad) at e)
    | inr (inr bad) ↦ absurd (stoi_defined time bad)
  ]

  pub Safe-set_time_token :
      (unit time : Bytes) → Safe {S = World p} (Overflows unit time) (set_time_token unit time)
  Safe-set_time_token unit time = record { at = set_time_token-Overflows unit time }

  pub Overflows-set_time_token :
      (unit time : Bytes) (w : World p)
      → Overflows unit time
      → set_time_token unit time w ≡ (undefined, w)
  unfolding set_time_token set_seconds
  Overflows-set_time_token unit time w h = rw (set_time_token, h.read, h.known, h.too_large) refl

module _ {p : Platform} {X : Type 0} where
  Safe-token_head : (kind : TokenType) → Safe {S = World p} X (token_head kind)
  unfolding token_head
  Safe-token_head permanent_token = Safe-pure _
  Safe-token_head session_token = Safe-pure _
  Safe-token_head temporary_token = record { at = λ w e. cc }

  pub Safe-generate : (kind : TokenType) → Safe {S = World p} X (generate kind)
  unfolding generate
  Safe-generate kind = Safe-bind (token_head kind) _ (Safe-token_head kind) λ head.
      Safe-bind (random_generate_str 10) _ (Safe-random_generate_str 10)
        λ random_part. Safe-then (log info _) _ (Safe-log info _) (Safe-pure _)
