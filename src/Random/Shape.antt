-- ===== src/Random/Shape.antt =====
-- The length and the alphabet of a random text.
use native.Mathlib.Nat.{add-zero}
use kuro_net.Prelude.{
  ℕ, zero, suc, ◌+◌, ◌<◌, ◌≡◌, refl, ap, true, List, [], ◌∷◌, get_or, length, All, arith, nat_eq,
}
use kuro_net.Text.{Bytes, elem}
use kuro_net.Platform.{Platform}
use kuro_net.Exec.{ok, ◌>>=◌}
use kuro_net.World.{World}
use kuro_net.Random.{chars, random_generate_str}

get_or-All {ℓ} :
    (P : ℕ → Type ℓ) (xs : List ℕ) (i d : ℕ) → All P xs → i < length xs → P (get_or xs i d)
get_or-All P [] i d h lt = elim lt [ ]
get_or-All P (x ∷ xs) zero d h lt = h.0
get_or-All P (x ∷ xs) (suc i) d h lt = get_or-All P xs i d h.1 (omega arith)

-- A letter or a digit of the alphabet.
abbrev pub IsLetter : ℕ → Type 0
IsLetter c = elem c chars ≡ true

chars-IsLetter : All IsLetter chars
unfolding elem
chars-IsLetter = ground arith

module _ (p : Platform) where
  -- The text that the draws from number `k` on make.
  pub random_text : ℕ → ℕ → Bytes
  random_text zero k = []
  random_text (suc n) k = get_or chars (p.draw k) 0 ∷ random_text n (k + 1)

  pub length-random_text : (n k : ℕ) → length (random_text n k) ≡ n
  unfolding random_text
  length-random_text zero k = refl
  length-random_text (suc n) k = ap suc (length-random_text n (k + 1))

  pub random_text-IsLetter : (n k : ℕ) → All IsLetter (random_text n k)
  unfolding random_text
  random_text-IsLetter zero k = tt
  random_text-IsLetter (suc n) k = (
    get_or-All IsLetter chars (p.draw k) 0 chars-IsLetter (p.draw_lt k),
    random_text-IsLetter n (k + 1),
  )

module _ {p : Platform} where
  pub random_generate_str_lem :
      (n : ℕ) (w : World p)
      → random_generate_str n w ≡ (ok (random_text p n w.draws), record w { draws = w.draws + n })
  unfolding random_generate_str random_text
  random_generate_str_lem zero w = rw (add-zero w.draws)
  random_generate_str_lem (suc n) w =
      rw (random_generate_str_lem n (record w { draws = w.draws + 1 }), ◌>>=◌) (ground arith)
