-- ===== src/Tokens/Bounds.antt =====
-- The time of tokens: the numbers that are read back, and the range of the time.
use kuro_net.Prelude.{
  ℕ, ◌+◌, ◌≡◌, inl, inr, refl, ap, ◌∙◌, true, if◌then◌else◌, Bool-cases, list_beq, nat_eq, list_eq,
}
use native.Mathlib.Numerals.{unary_clauses}
use kuro_net.Prelude.Int.{ℤ, pos, negsuc, ◌*ℕ◌, fits_int}
use kuro_net.Text.{Bytes, codes}
use kuro_net.Platform.{Platform}
use kuro_net.Exec.{ok, undefined, Outcome-cases}
use kuro_net.World.{World}
use kuro_net.Tokens.{to_string_int, set_time_token, set_seconds, unit_seconds}
use kuro_net.Tokens.Stoi.{stoi, in_range}
use kuro_net.Tokens.Stoi.RoundTrip.{stoi-to_string, stoi-minus}

-- A number of any size, written out: `std::stoi` returns it or finds it out of range.
pub stoi-in_range : (z : ℤ) → stoi (to_string_int z) ≡ in_range z
unfolding to_string_int
stoi-in_range (pos n) = stoi-to_string n
stoi-in_range (negsuc n) = stoi-minus (n + 1) ∙ ap in_range (simp unary_clauses refl)

-- `std::stoi` reads back what `std::to_string` writes, for every `int`.
pub stoi-to_string_int : (z : ℤ) → fits_int z ≡ true → stoi (to_string_int z) ≡ ok z
unfolding in_range
stoi-to_string_int z fits = stoi-in_range z ∙ rw fits refl

-- The units of time, with their seconds.
pub data Lasts (unit : Bytes) (seconds : ℕ) : Type 0 where
  minute : unit ≡ codes "-minute" → seconds ≡ 60 → Lasts unit seconds
  hour : unit ≡ codes "-hour" → seconds ≡ 3600 → Lasts unit seconds
  day : unit ≡ codes "-day" → seconds ≡ 86400 → Lasts unit seconds

Lasts-unit_seconds : (unit : Bytes) (k : ℕ) → Lasts unit k → unit_seconds unit ≡ ok k
unfolding unit_seconds list_beq
Lasts-unit_seconds unit k (minute named long) = rw (named, long) refl
Lasts-unit_seconds unit k (hour named long) = rw (named, long) refl
Lasts-unit_seconds unit k (day named long) = rw (named, long) refl

module _ {p : Platform} where
  -- A text that `std::stoi` reads, and a known unit.
  set_time_token-read :
      (unit time : Bytes) (z : ℤ) (k : ℕ) (w : World p)
      → stoi time ≡ ok z
      → unit_seconds unit ≡ ok k
      → set_time_token unit time w ≡ set_seconds (◌*ℕ◌ z k) w
  unfolding set_time_token
  set_time_token-read unit time z k w reads known = rw (reads, known) refl

  pub set_time_token-to_string_int :
      (unit : Bytes) (k : ℕ) (z : ℤ) (w : World p)
      → Lasts unit k
      → fits_int z ≡ true
      → set_time_token unit (to_string_int z) w ≡ (
          if fits_int (◌*ℕ◌ z k)
          then (ok tt, record w { token_time = ◌*ℕ◌ z k })
          else (undefined, w))
  unfolding set_seconds
  set_time_token-to_string_int unit k z w known fits =
      set_time_token-read unit (to_string_int z) z k w (stoi-to_string_int z fits)
        (Lasts-unit_seconds unit k known)

  -- Whatever the time and the unit are: the time of tokens stays in the range of an `int`.
  pub set_time_token-fits :
      (unit time : Bytes) (w : World p)
      → fits_int w.token_time ≡ true
      → fits_int (set_time_token unit time w).1.token_time ≡ true
  unfolding set_time_token set_seconds
  set_time_token-fits unit time w fits = elim (Outcome-cases (stoi time)) [
    | inl (z, reads) ↦ elim (Outcome-cases (unit_seconds unit)) [
      | inl (k, known) ↦ elim (Bool-cases (fits_int (◌*ℕ◌ z k))) [
        | inl inside ↦ simp (reads, known, inside) refl
        | inr outside ↦ simp (reads, known, outside) fits
      ]
      | inr (inl (e, bad)) ↦ simp (reads, bad) fits
      | inr (inr bad) ↦ simp (reads, bad) fits
    ]
    | inr (inl (e, bad)) ↦ simp bad fits
    | inr (inr bad) ↦ simp bad fits
  ]
