-- ===== src/Logger/Clock/Digits.antt =====
-- The milliseconds in the time that the log prints.
use kuro_net.Prelude.{
  ℕ, zero, suc, ◌+◌, ◌/◌, ◌%◌, ◌<◌, ◌≡◌, refl, ap, true, Bool, ◌&&◌, [], ◌∷◌, ◌++◌, nat_eq, list_eq,
  ◌==◌, eq_of_beq, list_beq, arith,
}
use kuro_net.Text.{Bytes, codes, to_string}
use kuro_net.Logger.Clock.{Clock, setw, fill_zeros, current_time}

-- The three digits of a number below 1000.
abbrev pub three_digits : ℕ → Bytes
three_digits m = (48 + m / 100) ∷ (48 + m / 10 % 10) ∷ (48 + m % 10) ∷ []

-- The test of every number below `n`.
fits_below : ℕ → Bool
fits_below zero = true
fits_below (suc n) = setw 3 (to_string n) == three_digits n && fits_below n

fits_of : (n m : ℕ) → fits_below n ≡ true → m < n → (setw 3 (to_string m) == three_digits m) ≡ true
unfolding fits_below
fits_of zero m all lt = absurd (omega arith)
fits_of (suc n) m all lt = ground (arith, fits_of n m)

all_fit : fits_below 1000 ≡ true
unfolding fits_below to_string fill_zeros list_beq
all_fit = refl

-- The time of a line ends in a point and three digits, which are those of the milliseconds.
pub current_time_lem :
    (clock : Clock) (n : ℕ)
    → current_time clock n
      ≡ clock.put_time (clock.now n / 1000) ++ (codes "." ++ three_digits (clock.now n % 1000))
unfolding current_time
current_time_lem clock n =
    let m = clock.now n % 1000 in
    ap (λ digits. clock.put_time (clock.now n / 1000) ++ (codes "." ++ digits))
      (eq_of_beq (setw 3 (to_string m)) (three_digits m) (fits_of 1000 m all_fit (omega arith)))
