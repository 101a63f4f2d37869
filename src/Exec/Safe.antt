-- ===== src/Exec/Safe.antt =====
-- Where a chain of steps has undefined behaviour: one rule for each way to build a chain.
use kuro_net.Prelude.{◌≡◌, refl, Bool, true, false, if◌then◌else◌}
use kuro_net.Exec.{Exec, Outcome, ok, throw, undefined, after, ◌>>=◌, ◌>>◌, pure, gets, lift}

-- `m` has no undefined behaviour, but where `X` holds.
pub record Safe {S A : Type 0} (X : Type 0) (m : Exec S A) : Type 0 where
  pub at : (s : S) → (m s).0 ≡ undefined → X

module _ {S : Type 0} {X : Type 0} where
  -- A step that returns.
  pub Safe-step : {A : Type 0} (f : S → A × S) → Safe {S = S} X (λ s. (ok (f s).0, (f s).1))
  Safe-step f = record { at = λ s e. cc }

  pub Safe-pure : {A : Type 0} (a : A) → Safe {S = S} X (pure a)
  Safe-pure a = record { at = λ s e. cc }

  pub Safe-gets : {A : Type 0} (f : S → A) → Safe {S = S} X (gets f)
  Safe-gets f = record { at = λ s e. cc }

  pub Safe-lift : {A : Type 0} (r : Outcome A) → (r ≡ undefined → X) → Safe {S = S} X (lift r)
  Safe-lift r excuse = record { at = λ s. excuse }

  pub after-safe :
      {A B : Type 0} (r : Outcome A) (u : S) (f : A → Exec S B)
      → (r ≡ undefined → X)
      → ((a : A) → Safe X (f a))
      → (after (r, u) f).0 ≡ undefined
      → X
  after-safe (ok a) u f excuse sf e = (sf a).at u e
  after-safe (throw x) u f excuse sf e = cc
  after-safe undefined u f excuse sf e = excuse refl

  pub Safe-bind :
      {A B : Type 0} (m : Exec S A) (f : A → Exec S B)
      → Safe X m
      → ((a : A) → Safe X (f a))
      → Safe X (m >>= f)
  Safe-bind m f sm sf = record { at = λ s. after-safe ((m s).0) ((m s).1) f (sm.at s) sf }

  pub Safe-then :
      {B : Type 0} (m : Exec S (Unit {0})) (k : Exec S B) → Safe X m → Safe X k → Safe X (m >> k)
  Safe-then m k sm sk = Safe-bind m (λ _. k) sm (λ _. sk)

  pub Safe-if :
      {A : Type 0} (b : Bool) (m n : Exec S A)
      → (b ≡ true → Safe X m)
      → (b ≡ false → Safe X n)
      → Safe X (if b then m else n)
  Safe-if true m n sm sn = sm refl
  Safe-if false m n sm sn = sn refl

  choose-safe :
      {A : Type 0} (b : Bool) (m n : Exec S A) (s : S)
      → Safe X m
      → Safe X n
      → (if b then m s else n s).0 ≡ undefined
      → X
  choose-safe true m n s sm sn = sm.at s
  choose-safe false m n s sm sn = sn.at s

  -- A test that reads the state picks the next part.
  pub Safe-choose :
      {A : Type 0} (b : S → Bool) (m n : Exec S A)
      → Safe X m
      → Safe X n
      → Safe X (λ s. if b s then m s else n s)
  Safe-choose b m n sm sn = record { at = λ s. choose-safe (b s) m n s sm sn }

  -- The next part depends on what is read from the state.
  pub Safe-reads :
      {A B : Type 0} (f : S → B) (m : B → Exec S A)
      → ((b : B) → Safe X (m b))
      → Safe X (λ s. m (f s) s)
  Safe-reads f m sm = record { at = λ s. (sm (f s)).at s }

-- A weaker excuse.
pub Safe-weaken : {S A X Y : Type 0} (m : Exec S A) → (X → Y) → Safe X m → Safe Y m
Safe-weaken m more sm = record { at = λ s e. more (sm.at s e) }

-- A chain whose first step has undefined behaviour has it.
pub after-undefined :
    {S A B : Type 0} (r : Outcome A × S) (f : A → Exec S B)
    → r.0 ≡ undefined
    → (after r f).0 ≡ undefined
after-undefined (ok a, s) f e = cc
after-undefined (throw x, s) f e = cc
after-undefined (undefined, s) f e = refl
