-- ===== src/Process/Loop/Order.antt =====
-- The runs of the event loop from the process with its maps in another order.
use mathlib.Core.Path.{subst}
use mathlib.Core.List.{Permᴰ}
use mathlib.Core.List.Permᴰ
use kuro_net.Prelude.{◌≡◌, refl, sym, ap, ◌∙◌, ◌⊎◌, inl, inr, List, [], ◌∷◌, ◌++◌}
use kuro_net.Platform.{Platform}
use kuro_net.World.{World, Pending}
use kuro_net.World.Reorder.{Order, reordered}
use kuro_net.Process.{Event, happens}
use kuro_net.Process.Blind.{IsStill, happens-reordered}
use kuro_net.Process.Loop.{
  Completes, accepts, requests, reads, writes, waits, without, Step, runs, is_called, Reach, here,
  later,
}

module _ {A : Type 0} where
  -- `rest` is the list without one of its members, which is `x`.
  abbrev Pick : A → List A → List A → Type 0
  Pick x [] rest = ⊥
  Pick x (y ∷ l) rest =
      ((y ≡ x) × (rest ≡ l)) ⊎ ((others : List A) × (rest ≡ y ∷ others) × Pick x l others)

  middle-Pick : (x : A) (before behind : List A) → Pick x (before ++ x ∷ behind) (before ++ behind)
  middle-Pick x [] behind = inl (refl, refl)
  middle-Pick x (y ∷ before) behind = inr (before ++ behind, refl, middle-Pick x before behind)

  Pick-middle :
      (x : A) (l rest : List A)
      → Pick x l rest
      → (before behind : List A) × (l ≡ before ++ x ∷ behind) × (rest ≡ before ++ behind)
  Pick-middle x [] rest p = absurd p
  Pick-middle x (y ∷ l) rest (inl (is, all)) = ([], l, ap (λ z. z ∷ l) is, all)
  Pick-middle x (y ∷ l) rest (inr (others, all, p)) =
      let (before, behind, is, left) = Pick-middle x l others p in
      (y ∷ before, behind, ap (λ z. y ∷ z) is, all ∙ ap (λ z. y ∷ z) left)

  Pick-reorder :
      (x : A) {l m : List A}
      → Permᴰ l m
      → (rest : List A) → Pick x l rest
      → (rest' : List A) × Pick x m rest' × Permᴰ rest rest'
  Pick-reorder x Permᴰ.nil rest p = absurd p
  Pick-reorder x (Permᴰ.cons {a} {b} {l₁ = l} {l₂ = m} same d) rest (inl (is, all)) =
      (m, inl (sym same ∙ is, refl), subst (λ t. Permᴰ t m) (sym all) d)
  Pick-reorder x (Permᴰ.cons {a} {b} {l₁ = l} {l₂ = m} same d) rest (inr (others, all, p)) =
      let (others', q, e) = Pick-reorder x d others p in
      (
        b ∷ others',
        inr (others', refl, q),
        subst (λ t. Permᴰ t (b ∷ others')) (sym all) (Permᴰ.cons same e),
      )
  Pick-reorder x (Permᴰ.swap {a} {b} {a' = a'} {b' = b'} {l = l} first second) rest
        (inl (is, all)) =
      (
        a' ∷ l,
        inr (l, refl, inl (sym first ∙ is, refl)),
        subst (λ t. Permᴰ t (a' ∷ l)) (sym all) (Permᴰ.cons second (Permᴰ.refl l)),
      )
  Pick-reorder x (Permᴰ.swap {a} {b} {a' = a'} {b' = b'} {l = l} first second) rest
        (inr (others, all, inl (is, left))) =
      (
        b' ∷ l,
        inl (sym second ∙ is, refl),
        subst (λ t. Permᴰ t (b' ∷ l)) (sym (all ∙ ap (λ t. a ∷ t) left))
            (Permᴰ.cons first (Permᴰ.refl l)),
      )
  Pick-reorder x (Permᴰ.swap {a} {b} {a' = a'} {b' = b'} {l = l} first second) rest
        (inr (others, all, inr (more, left, p))) =
      (
        a' ∷ b' ∷ more,
        inr (b' ∷ more, refl, inr (more, refl, p)),
        subst (λ t. Permᴰ t (a' ∷ b' ∷ more)) (sym (all ∙ ap (λ t. a ∷ t) left))
            (Permᴰ.swap first second),
      )
  Pick-reorder x (Permᴰ.trans d f) rest p =
      let (rest', q, e) = Pick-reorder x d rest p in
      let (rest'', q', e') = Pick-reorder x f rest' q in (rest'', q', Permᴰ.trans e e')

-- A handler is no command.
Completes-IsStill : {op : Pending} {e : Event} → Completes op e → IsStill e
Completes-IsStill (accepts socket ec) = tt
Completes-IsStill (requests socket ec buffer n) = tt
Completes-IsStill (reads id c ec buffer) = tt
Completes-IsStill (writes c text ec) = tt
Completes-IsStill waits = tt

module _ {p : Platform} where
  -- No call in the step, or in the run, is a command that lists clients.
  abbrev IsStillStep : {w u : World p} → Step w u → Type 0
  IsStillStep (runs before behind found completes same) = Unit
  IsStillStep (is_called {e} calls same) = IsStill e

  abbrev pub IsStillRun : {w u : World p} → Reach w u → Type 0
  IsStillRun here = Unit
  IsStillRun (later reach step) = IsStillRun reach × IsStillStep step

  -- The other order without one of the operations.
  abbrev less :
      (w : World p) (before behind rest : List Pending) (r : Order w)
      → Permᴰ (before ++ behind) rest
      → Order (without before behind w)
  less w before behind rest r d = record {
    clients = r.clients;
    waits = r.waits;
    pending = rest;
    pending_perm = d;
  }

  runs-reordered :
      (w : World p) (r : Order w) (before behind : List Pending) {op : Pending} {e : Event}
      → w.pending ≡ before ++ op ∷ behind
      → Completes op e
      → (s : Order (happens e (without before behind w))) × Step
          (reordered w r)
          (reordered (happens e (without before behind w)) s)
  runs-reordered w r before behind {op} {e} found completes =
      let picks : Pick op w.pending (before ++ behind) =
        subst (λ l. Pick op l (before ++ behind)) (sym found) (middle-Pick op before behind) in
      let (rest, picks', d) = Pick-reorder op r.pending_perm (before ++ behind) picks in
      let (before', behind', found', left) = Pick-middle op r.pending rest picks' in
      let other =
        less w before behind (before' ++ behind') r
          (subst (λ l. Permᴰ (before ++ behind) l) left d) in
      let (s, ends, same) =
        happens-reordered e (without before behind w) other (Completes-IsStill completes) in
      (s, runs before' behind' found' completes (sym same))

  Step-reordered :
      {w u : World p} (step : Step w u)
      → IsStillStep step
      → (r : Order w) → (s : Order u) × Step (reordered w r) (reordered u s)
  Step-reordered {w} {u} (runs before behind found completes same) still r =
      subst (λ t. (s : Order t) × Step (reordered w r) (reordered t s)) (sym same)
        (runs-reordered w r before behind found completes)
  Step-reordered {w} {u} (is_called {e} calls same) still r =
      let (s, ends, next) = happens-reordered e w r still in
      subst (λ t. (s : Order t) × Step (reordered w r) (reordered t s)) (sym same)
        (s, is_called calls (sym next))

  -- Every run of the event loop and of the calls of other threads, in which no call is `client waits` or
  -- `client list`, is a run as well from the same process with its maps and its started operations in
  -- another order, where ids are unique; it ends in the same state, up to the order of the maps and of
  -- the started operations.
  pub Reach-reordered :
      {w u : World p} (reach : Reach w u)
      → IsStillRun reach
      → (r : Order w) → (s : Order u) × Reach (reordered w r) (reordered u s)
  Reach-reordered here still r = (r, here)
  Reach-reordered (later reach step) still r =
      let (s, before) = Reach-reordered reach still.0 r in
      let (t, last) = Step-reordered step still.1 s in (t, later before last)
