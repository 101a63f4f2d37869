-- ===== src/Text/Find.antt =====
-- Laws of the searches in a text.
use kuro_net.Prelude.{
  ℕ, zero, suc, ◌<◌, ◌≡◌, refl, true, false, none, some, [], ◌∷◌, ◌++◌, nat_eq, ◌≢◌, ◌↔◌, drop,
  length, arith, ap, Option-cases, inl, inr,
}
use kuro_net.Text.{Bytes, is_prefix, find, rfind, elem}

-- A text that begins with the key, and back.
pub is_prefix-append : (key rest : Bytes) → is_prefix key (key ++ rest) ≡ true
unfolding is_prefix
is_prefix-append [] rest = refl
is_prefix-append (k ∷ key) rest = ground (arith, is_prefix-append key rest)

pub is_prefix→append :
    (key text : Bytes) → is_prefix key text ≡ true → (rest : Bytes) × (text ≡ key ++ rest)
unfolding is_prefix
is_prefix→append [] text h = (text, refl)
is_prefix→append (k ∷ key) [] h = cc
is_prefix→append (k ∷ key) (c ∷ text) h =
    let (rest, e) = is_prefix→append key text (ground arith) in (rest, ground arith)

-- The key stands at the place that `find` returns.
pub find→prefix :
    (text key : Bytes) (i : ℕ) → find text key ≡ some i → is_prefix key (drop i text) ≡ true
unfolding find
find→prefix [] key zero h = ground arith
find→prefix [] key (suc i) h = ground arith
find→prefix (c ∷ text) key zero h = ground arith
find→prefix (c ∷ text) key (suc i) h = ground (arith, find→prefix text key i)

-- `find` fails only where no place has the key.
pub find→no_prefix :
    (text key : Bytes) (i : ℕ) → find text key ≡ none → is_prefix key (drop i text) ≡ false
unfolding find
find→no_prefix [] key zero h = ground arith
find→no_prefix [] key (suc i) h = ground arith
find→no_prefix (c ∷ text) key zero h = ground arith
find→no_prefix (c ∷ text) key (suc i) h = ground (arith, find→no_prefix text key i)

-- `find` returns the first place.
pub find→first :
    (text key : Bytes) (i j : ℕ)
    → find text key ≡ some i
    → j < i
    → is_prefix key (drop j text) ≡ false
unfolding find
find→first [] key i j h lt = ground arith
find→first (c ∷ text) key i zero h lt = ground arith
find→first (c ∷ text) key zero (suc j) h lt = ground arith
find→first (c ∷ text) key (suc i) (suc j) h lt = ground (arith, find→first text key i j)

-- `rfind` returns a place of the key.
pub rfind→prefix :
    (text key : Bytes) (i : ℕ) → rfind text key ≡ some i → is_prefix key (drop i text) ≡ true
unfolding rfind
rfind→prefix [] key zero h = ground arith
rfind→prefix [] key (suc i) h = ground arith
rfind→prefix (c ∷ text) key zero h = ground arith
rfind→prefix (c ∷ text) key (suc i) h = ground (arith, rfind→prefix text key i)

-- Neither search finds a key that the other misses.
pub rfind-eq-none : (text key : Bytes) → (rfind text key ≡ none) ↔ (find text key ≡ none)
unfolding find rfind
rfind-eq-none [] key = (ground arith, ground arith)
rfind-eq-none (c ∷ text) key =
    let both = rfind-eq-none text key in
    (ground (arith, both.0, both.1), ground (arith, both.0, both.1))

rfind_prefix : (text key : Bytes) → is_prefix key text ≡ true → rfind text key ≢ none
unfolding rfind
rfind_prefix [] key h = ground arith
rfind_prefix (c ∷ text) key h = ground arith

-- Where the key is written, the search finds it.
pub rfind-append_middle : (pre key post : Bytes) → rfind (pre ++ (key ++ post)) key ≢ none
unfolding rfind
rfind-append_middle [] key post = rfind_prefix (key ++ post) key (is_prefix-append key post)
rfind-append_middle (c ∷ pre) key post = ground (arith, rfind-append_middle pre key post)

-- A byte that the text lacks is not found, and the first place of one is where the text before
-- it ends.
pub find_byte_absent : (b : ℕ) (text : Bytes) → elem b text ≡ false → find text (b ∷ []) ≡ none
unfolding find elem
find_byte_absent b [] h = ground arith
find_byte_absent b (c ∷ text) h = ground (arith, find_byte_absent b text)

pub find_byte_after :
    (b : ℕ) (text rest : Bytes)
    → elem b text ≡ false
    → find (text ++ b ∷ rest) (b ∷ []) ≡ some (length text)
unfolding find elem
find_byte_after b [] rest h = ground arith
find_byte_after b (c ∷ text) rest h = ground (arith, find_byte_after b text rest)

-- The key stands somewhere in the text.
abbrev pub Contains : Bytes → Bytes → Type 0
Contains text key = (pre : Bytes) × (post : Bytes) × (text ≡ pre ++ (key ++ post))

Contains-prefix : (text key : Bytes) → is_prefix key text ≡ true → Contains text key
Contains-prefix text key h = let (post, e) = is_prefix→append key text h in ([], post, e)

pub rfind→Contains : (text key : Bytes) (i : ℕ) → rfind text key ≡ some i → Contains text key
unfolding rfind
rfind→Contains [] key i h = Contains-prefix [] key (ground arith)
rfind→Contains (c ∷ text) key i h = elim (Option-cases (rfind text key)) [
  | inl e ↦ Contains-prefix (c ∷ text) key (ground (arith, e))
  | inr (j, e) ↦
      let (pre, post, split) = rfind→Contains text key j e in (c ∷ pre, post, ap (◌∷◌ c) split)
]

pub Contains→rfind : (text key : Bytes) → Contains text key → rfind text key ≢ none
Contains→rfind text key (pre, post, e) = rw e (rfind-append_middle pre key post)
