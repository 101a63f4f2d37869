-- ===== src/Config/Parts.antt =====
-- The split of a parameter at its dots: the loop ends, and finds the parts that the dots separate.
use mathlib.Core.List.{append_assoc}
use mathlib.Core.Option
use kuro_net.Prelude.{
  ℕ, zero, suc, ◌+◌, ◌-◌, ◌<◌, ◌≡◌, ◌⊎◌, inl, inr, refl, ap, ◌∙◌, false, some, List, [], ◌∷◌, ◌++◌,
  nat_eq, ◌==◌, Bool-cases, arith, length, All, drop-append, take-append, length-append,
}
use kuro_net.Text.{Bytes, elem, find, find_from, substr}
use kuro_net.Text.Find.{find_byte_absent, find_byte_after}
use kuro_net.Config.{parts_from, parts_of}

-- A part holds no dot.
abbrev pub IsDotless : Bytes → Type 0
IsDotless part = elem b'.' part ≡ false

-- Parts with a dot between each two.
unfoldable pub join : Bytes → List Bytes → Bytes
join part [] = part
join part (next ∷ parts) = part ++ b'.' ∷ join next parts

-- A text has no dot, or a first part with no dot and a rest.
abbrev Splits : Bytes → Type 0
Splits text =
    IsDotless text
    ⊎ ((part : Bytes) × (rest : Bytes) × IsDotless part × (text ≡ part ++ b'.' ∷ rest))

splits : (text : Bytes) → Splits text
unfolding elem
splits [] = inl refl
splits (c ∷ text) = elim (Bool-cases (b'.' == c)) [
  | inl dot ↦ inr ([], text, refl, ground arith)
  | inr other ↦ elim (splits text) [
    | inl dotless ↦ inl (ground arith)
    | inr (part, rest, dotless, e) ↦ inr (c ∷ part, rest, ground arith, ap (◌∷◌ c) e)
  ]
]

-- The loop, with the text from `start` on: it ends, and its parts join to that text.
record Parted (fuel : ℕ) (pre text : Bytes) : Type 0 where
  part : Bytes
  parts : List Bytes
  ends : parts_from fuel (pre ++ text) (length pre) ≡ some (part ∷ parts)
  dotless : IsDotless part × All IsDotless parts
  joins : join part parts ≡ text

module _ (pre text : Bytes) where
  find_from-append :
      find_from (pre ++ text) (b'.' ∷ []) (length pre)
      ≡ Option.map (λ i. length pre + i) (find text (b'.' ∷ []))
  unfolding find_from
  find_from-append = rw (drop-append pre text)

  parts_from_dotless : (fuel : ℕ) → IsDotless text → Parted (suc fuel) pre text
  unfolding parts_from join
  parts_from_dotless fuel dotless = record {
    part = text;
    parts = [];
    ends =
        rw (parts_from, find_from-append, find_byte_absent b'.' text dotless, drop-append pre text)
          refl;
    dotless = (dotless, tt);
    joins = refl;
  }

-- A round of the loop that finds a dot.
parts_from_dot :
    (fuel start end : ℕ) (param : Bytes) (parts : List Bytes)
    → find_from param (b'.' ∷ []) start ≡ some end
    → parts_from fuel param (end + 1) ≡ some parts
    → parts_from (suc fuel) param start ≡ some (substr param start (end - start) ∷ parts)
unfolding parts_from
parts_from_dot fuel start end param parts found rest = rw (parts_from, found, rest) refl

module _ (pre part rest : Bytes) where
  regroup : pre ++ (part ++ b'.' ∷ rest) ≡ (pre ++ (part ++ b'.' ∷ [])) ++ rest
  regroup = simp append_assoc

  past_dot : length pre + length part + 1 ≡ length (pre ++ (part ++ b'.' ∷ []))
  past_dot = omega (arith, length-append pre (part ++ b'.' ∷ []), length-append part (b'.' ∷ []))

  substr_part :
      substr (pre ++ (part ++ b'.' ∷ rest)) (length pre) (length pre + length part - length pre)
      ≡ part
  substr_part =
      let count : length pre + length part - length pre ≡ length part = omega arith in
      rw (count, drop-append pre (part ++ b'.' ∷ rest), take-append part (b'.' ∷ rest)) refl

  parts_from_part :
      (fuel : ℕ)
      → IsDotless part
      → Parted fuel (pre ++ (part ++ b'.' ∷ [])) rest
      → Parted (suc fuel) pre (part ++ b'.' ∷ rest)
  unfolding join
  parts_from_part fuel dotless p = record {
    part = part;
    parts = p.part ∷ p.parts;
    ends =
        parts_from_dot fuel (length pre) (length pre + length part) (pre ++ (part ++ b'.' ∷ rest))
          (p.part ∷ p.parts) (rw (find_from-append, find_byte_after b'.' part rest dotless) refl)
          (rw (past_dot, regroup) p.ends)
        ∙ ap (λ w. some (w ∷ p.part ∷ p.parts)) substr_part;
    dotless = (dotless, p.dotless);
    joins = rw p.joins refl;
  }

parts_from-Parted : (fuel : ℕ) (pre text : Bytes) → length text < fuel → Parted fuel pre text
parts_from-Parted zero pre text enough = absurd (omega arith)
parts_from-Parted (suc fuel) pre text enough = elim (splits text) [
  | inl dotless ↦ parts_from_dotless pre text fuel dotless
  | inr (part, rest, dotless, e) ↦
      let shorter : length rest < fuel =
        omega (arith, ap length e, length-append part (b'.' ∷ rest)) in
      rw e (
        parts_from_part pre part rest fuel dotless
          (parts_from-Parted fuel (pre ++ (part ++ b'.' ∷ [])) rest shorter))
]

parts_from-join :
    (fuel : ℕ) (pre part : Bytes) (parts : List Bytes)
    → IsDotless part
    → All IsDotless parts
    → length (join part parts) < fuel
    → parts_from fuel (pre ++ join part parts) (length pre) ≡ some (part ∷ parts)
unfolding join parts_from_dotless parts_from_part
parts_from-join zero pre part parts dotless all enough = absurd (omega arith)
parts_from-join (suc fuel) pre part [] dotless all enough =
    (parts_from_dotless pre part fuel dotless).ends
parts_from-join (suc fuel) pre part (next ∷ parts) dotless all enough =
    let shorter : length (join next parts) < fuel =
      omega (arith, length-append part (b'.' ∷ join next parts)) in
    (parts_from_part pre part (join next parts) fuel dotless (record {
      part = next;
      parts = parts;
      ends = parts_from-join fuel (pre ++ (part ++ b'.' ∷ [])) next parts all.0 all.1 shorter;
      dotless = all;
      joins = refl;
    })).ends

-- The loop ends on every parameter; its parts have no dot, and with dots between them they are the
-- parameter.
pub parts_of_lem :
    (param : Bytes)
    → (part : Bytes) × (parts : List Bytes) × (parts_of param ≡ some (part ∷ parts))
      × All IsDotless (part ∷ parts)
      × (join part parts ≡ param)
unfolding parts_of
parts_of_lem param =
    let p = parts_from-Parted (length param + 1) [] param (omega arith) in
    (p.part, p.parts, p.ends, p.dotless, p.joins)

-- Parts with no dot, joined by dots, are read back.
pub parts_of-join :
    (part : Bytes) (parts : List Bytes)
    → IsDotless part
    → All IsDotless parts
    → parts_of (join part parts) ≡ some (part ∷ parts)
unfolding parts_of
parts_of-join part parts dotless all =
    parts_from-join (length (join part parts) + 1) [] part parts dotless all (omega arith)
