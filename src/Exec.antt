-- ===== src/Exec.antt =====
-- State with C++ exceptions. `undefined` is a run with undefined behaviour.
pub mod Safe
use kuro_net.Prelude.{◌≡◌, ◌⊎◌, inl, inr, refl}
use kuro_net.Text.{Bytes}
use kuro_net.Platform.{ErrorCode}

pub data Exception : Type 0 where
  invalid_argument out_of_range runtime_error : Bytes → Exception
  system_error : ErrorCode → Exception

pub data Outcome {ℓ} (A : Type ℓ) : Type ℓ where
  ok : A → Outcome A
  throw : Exception → Outcome A
  undefined : Outcome A

abbrev pub Exec {ℓ} : Type ℓ → Type ℓ → Type ℓ
Exec S A = S → Outcome A × S

abbrev pub pure {ℓ} : {S A : Type ℓ} → A → Exec S A
pure a s = (ok a, s)

abbrev pub raise {ℓ} : {S A : Type ℓ} → Exception → Exec S A
raise e s = (throw e, s)

abbrev pub gets {ℓ} : {S A : Type ℓ} → (S → A) → Exec S A
gets f s = (ok (f s), s)

abbrev pub modify : {S : Type 0} → (S → S) → Exec S (Unit {0})
modify f s = (ok tt, f s)

abbrev pub after {ℓ} : {S A B : Type ℓ} → Outcome A × S → (A → Exec S B) → Outcome B × S
after (ok a, s) f = f a s
after (throw e, s) f = (throw e, s)
after (undefined, s) f = (undefined, s)

infixl 5 ◌>>=◌ ◌>>◌
abbrev pub ◌>>=◌ {ℓ} : {S A B : Type ℓ} → Exec S A → (A → Exec S B) → Exec S B
◌>>=◌ m f s = after (m s) f

abbrev pub ◌>>◌ : {S B : Type 0} → Exec S (Unit {0}) → Exec S B → Exec S B
◌>>◌ m k s = after (m s) (λ _. k)

-- An outcome that has been computed already.
abbrev pub lift {ℓ} : {S A : Type ℓ} → Outcome A → Exec S A
lift r s = (r, s)

-- What a chain that returned has come through.
after-eq-ok :
    {S A B : Type 0} (r : Outcome A) (u : S) (f : A → Exec S B) {b : B} {s' : S}
    → after (r, u) f ≡ (ok b, s')
    → (a : A) × (r ≡ ok a) × (f a u ≡ (ok b, s'))
after-eq-ok (ok a) u f h = (a, refl, h)
after-eq-ok (throw e) u f h = cc
after-eq-ok undefined u f h = cc

pub after_assoc {ℓ} :
    {S A B C : Type ℓ} (r : Outcome A × S) (f : A → Exec S B) (g : B → Exec S C)
    → after (after r f) g ≡ after r (λ a s. after (f a s) g)
after_assoc (ok a, s) f g = refl
after_assoc (throw e, s) f g = refl
after_assoc (undefined, s) f g = refl

pub bind-eq-ok :
    {S A B : Type 0} (m : Exec S A) (f : A → Exec S B) (s : S) {b : B} {s' : S}
    → (m >>= f) s ≡ (ok b, s')
    → (a : A) × ((m s).0 ≡ ok a) × (f a (m s).1 ≡ (ok b, s'))
bind-eq-ok m f s h = after-eq-ok ((m s).0) ((m s).1) f h

pub Outcome-cases {ℓ} :
    {A : Type ℓ} (r : Outcome A)
    → ((a : A) × (r ≡ ok a)) ⊎ (((e : Exception) × (r ≡ throw e)) ⊎ (r ≡ undefined))
Outcome-cases (ok a) = inl (a, refl)
Outcome-cases (throw e) = inr (inl (e, refl))
Outcome-cases undefined = inr (inr refl)
