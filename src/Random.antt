-- ===== src/Random.antt =====
-- `kuro_generator::random_generate_str` and `IDGenerator` (src/core/UniqueUtils.cpp). Each call
-- makes a generator of its own; its draws are the next numbers of the platform.
pub mod Shape
use kuro_net.Prelude.{ℕ, zero, suc, ◌+◌, List, [], ◌∷◌, get_or}
use kuro_net.Text.{Bytes, codes}
use kuro_net.Platform.{Platform}
use kuro_net.Exec.{Exec, ok, ◌>>=◌, pure}
use kuro_net.World.{World}

abbrev pub chars : Bytes
chars = codes "0123456789ABCDEFGHIJKLMNOPQRSTUVWXYZabcdefghijklmnopqrstuvwxyz"

abbrev pub default_length : ℕ
default_length = 16

module _ {p : Platform} where
  -- `dist(generator)`.
  draw : Exec (World p) ℕ
  draw w = (ok (p.draw w.draws), record w { draws = w.draws + 1 })

  -- The loop, with the number of rounds that are left.
  unfoldable pub random_generate_str : ℕ → Exec (World p) Bytes
  unfolding draw
  random_generate_str zero = pure []
  random_generate_str (suc rounds) = do
    i ← draw
    rest ← random_generate_str rounds
    pure (get_or chars i 0 ∷ rest)

  -- `IDGenerator::generate` with the default length.
  unfoldable pub generate_id : Exec (World p) Bytes
  generate_id = random_generate_str default_length
