-- ===== src/World/Reorder.antt =====
-- The process with the entries of its two maps, and the operations that are started, in another order;
-- and the rules by which a chain of steps does not depend on that order.
use mathlib.Core.Path.{subst, fun_ext}
use mathlib.Core.List.{Permᴰ}
use kuro_net.Prelude.{◌≡◌, refl, ap, ◌∙◌, Bool, true, false, List, nat_eq, list_eq, if◌then◌else◌}
use kuro_net.Prelude.Map.Reorder.{Reordered}
use kuro_net.Platform.{Platform}
use kuro_net.Exec.{Exec, Outcome, ok, throw, undefined, after, ◌>>=◌, ◌>>◌, pure, gets, lift}
use kuro_net.World.{World, Manager, Pending}

-- Another order of the clients, of those that wait, and of the operations that are started. Ids are
-- unique in the maps.
pub record Reordering (m : Manager) (ops : List Pending) : Type 0 where
  pub clients : Reordered m.clients
  pub waits : Reordered m.wait_clients
  pub pending : List Pending
  pub pending_perm : Permᴰ ops pending

module _ {p : Platform} where
  abbrev pub Order : World p → Type 0
  Order w = Reordering w.manager w.pending

  -- The process `w` in the order `r`.
  abbrev pub reordered : (w : World p) → Order w → World p
  reordered w r = record w {
    manager = record w.manager { clients = r.clients.entries; wait_clients = r.waits.entries };
    pending = r.pending;
  }

  -- What `m` does in one order of the maps is what it does in any other, up to the order of what it
  -- leaves.
  pub record Blind {A : Type 0} (m : Exec (World p) A) : Type 0 where
    pub at :
        (w : World p) (r : Order w)
        → (s : Order (m w).1) × (m (reordered w r) ≡ ((m w).0, reordered (m w).1 s))

  pub Blind-pure : {A : Type 0} (a : A) → Blind (pure a)
  Blind-pure a = record { at = λ w r. (r, refl) }

  pub Blind-lift : {A : Type 0} (o : Outcome A) → Blind (lift o)
  Blind-lift o = record { at = λ w r. (r, refl) }

  pub Blind-gets :
      {A : Type 0} (f : World p → A)
      → ((w : World p) (r : Order w) → f (reordered w r) ≡ f w)
      → Blind (gets f)
  Blind-gets f same = record { at = λ w r. (r, ap (λ a. (ok a, reordered w r)) (same w r)) }

  after-Blind :
      {A B : Type 0} (o : Outcome A) (v : World p) (s : Order v) (f : A → Exec (World p) B)
      → ((a : A) → Blind (f a))
      → (t : Order (after (o, v) f).1) × (after (o, reordered v s) f
          ≡ ((after (o, v) f).0, reordered (after (o, v) f).1 t))
  after-Blind (ok a) v s f blind = (blind a).at v s
  after-Blind (throw e) v s f blind = (s, refl)
  after-Blind undefined v s f blind = (s, refl)

  pub Blind-bind :
      {A B : Type 0} (m : Exec (World p) A) (f : A → Exec (World p) B)
      → Blind m
      → ((a : A) → Blind (f a))
      → Blind (m >>= f)
  Blind-bind m f bm bf = record {
    at = λ w r.
        let (s, ends) = bm.at w r in
        let (t, same) = after-Blind ((m w).0) ((m w).1) s f bf in (t, rw ends same);
  }

  pub Blind-then :
      {B : Type 0} (m : Exec (World p) (Unit {0})) (k : Exec (World p) B)
      → Blind m
      → Blind k
      → Blind (m >> k)
  Blind-then m k bm bk = Blind-bind m (λ _. k) bm (λ _. bk)

  pub Blind-if :
      {A : Type 0} (b : Bool) (m n : Exec (World p) A)
      → Blind m
      → Blind n
      → Blind (if b then m else n)
  Blind-if true m n bm bn = bm
  Blind-if false m n bm bn = bn

  -- The next part depends on what is read from the state, which is the same in every order.
  pub Blind-reads :
      {A B : Type 0} (f : World p → B) (m : B → Exec (World p) A)
      → ((w : World p) (r : Order w) → f (reordered w r) ≡ f w)
      → ((b : B) → Blind (m b))
      → Blind (λ w. m (f w) w)
  Blind-reads f m same bm = record {
    at = λ w r.
        let (s, ends) = (bm (f w)).at w r in (s, ap (λ b. m b (reordered w r)) (same w r) ∙ ends);
  }

  pub Blind-choose :
      {A : Type 0} (b : World p → Bool) (m n : Exec (World p) A)
      → ((w : World p) (r : Order w) → b (reordered w r) ≡ b w)
      → Blind m
      → Blind n
      → Blind (λ w. if b w then m w else n w)
  Blind-choose b m n same bm bn = Blind-reads b (λ c w. if c then m w else n w) same λ c. choice c
    where
      choice : (c : Bool) → Blind (λ w. if c then m w else n w)
      choice true = record { at = bm.at }
      choice false = record { at = bn.at }

  -- The same chain, written in another way.
  pub Blind-same :
      {A : Type 0} (m n : Exec (World p) A) → ((w : World p) → m w ≡ n w) → Blind m → Blind n
  Blind-same m n same = subst Blind (fun_ext same)
