-- ===== src/Logger/Clock.antt =====
-- `detail::current_time` of src/core/logger.cpp: the time as the log prints it.
pub mod Digits
use kuro_net.Prelude.{ℕ, zero, suc, ◌+◌, ◌-◌, ◌/◌, ◌%◌, List, [], ◌∷◌, ◌++◌, length}
use kuro_net.Text.{Bytes, codes, to_string}

-- The n-th reading of the system clock, in milliseconds since its epoch, and `put_time` of the local
-- time of a number of seconds in the format `%Y-%m-%d %H:%M:%S`.
pub record Clock : Type 0 where
  pub now : ℕ → ℕ
  pub put_time : ℕ → Bytes

-- `setfill('0') << setw(width)`.
pub fill_zeros : ℕ → Bytes → Bytes
fill_zeros zero text = text
fill_zeros (suc n) text = b'0' ∷ fill_zeros n text

abbrev pub setw : ℕ → Bytes → Bytes
setw width text = fill_zeros (width - length text) text

unfoldable pub current_time : Clock → ℕ → Bytes
unfolding fill_zeros
current_time clock n =
    clock.put_time (clock.now n / 1000) ++ (codes "." ++ setw 3 (to_string (clock.now n % 1000)))
