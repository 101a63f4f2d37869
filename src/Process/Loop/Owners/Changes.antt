-- ===== src/Process/Loop/Owners/Changes.antt =====
-- The changes of the session and of the server, and the owners of sockets.
use kuro_net.Prelude.{
  ℕ, ◌+◌, ◌≤◌, ◌<◌, ◌≡◌, ◌≢◌, ◌⊎◌, refl, ap, inl, inr, List, [], ◌∷◌, ◌++◌, Bool-cases, nat_eq,
  list_eq, ◌==◌, arith,
}
use kuro_net.Platform.{Platform}
use kuro_net.World.{
  Pending, accepting, requesting, reading, writing, waiting, View, view, put_operation,
}
use native.Mathlib.Decide.{dec_lt}
use kuro_net.Server.Keeps.{accepting_view}
use kuro_net.Session.Keeps.{forget_waiting, forget_client, put_waiting, put_client, put_token}
use kuro_net.Session.Closed.{Closed, Anyone, viewed, Arrives}
use kuro_net.Process.Loop.Owners.{
  weight, held_by, count_operations, owners, count_operations-append, count_operations-one,
  count_operations-middle, count_clients-erase, count_clients-erase_found, count_clients-emplace,
}

-- Every socket has one owner at most, and a number that is not given out yet has none.
pub record IsOwned (v : View) : Type 0 where
  pub single : (s : ℕ) → owners s v ≤ 1
  pub given : (s : ℕ) → v.next_socket ≤ s → owners s v ≡ 0

-- An invariant on the owners stands whatever adds none.
fewer-IsOwned :
    (v u : View)
    → u.next_socket ≡ v.next_socket
    → ((s : ℕ) → owners s u ≤ owners s v)
    → IsOwned v
    → IsOwned u
fewer-IsOwned v u same fewer h = record {
  single = λ s. omega (arith, fewer s, h.single s);
  given = λ s le. omega (arith, fewer s, h.given s (omega arith));
}

shared-le :
    (s : ℕ) (op : Pending) (v : View)
    → held_by s op ≡ 0
    → owners s (put_operation op v) ≤ owners s v
shared-le s op v free =
    omega (arith, count_operations-append s v.pending (op ∷ []), count_operations-one s op)

pub IsOwned-Closed : {p : Platform} → Closed {p = p} Anyone view IsOwned
unfolding held_by
IsOwned-Closed = viewed record {
  forgets_waiting = λ id v.
      fewer-IsOwned v (forget_waiting id v) refl
        λ s. omega (arith, count_clients-erase s id v.manager.wait_clients);
  forgets_client = λ id v.
      fewer-IsOwned v (forget_client id v) refl
        λ s. omega (arith, count_clients-erase s id v.manager.clients);
  puts_token = λ token v. fewer-IsOwned v (put_token token v) refl λ s. omega arith;
  admits = λ id token c v allowed active stands. fewer-IsOwned v _ refl λ s. omega (
    arith,
    count_clients-erase_found s id c v.manager.wait_clients stands,
    count_clients-emplace s id (record c { token = token }) v.manager.clients,
  );
  reads = λ id c v. fewer-IsOwned v _ refl λ s. shared-le s (reading id c) v refl;
  writes = λ c text v. fewer-IsOwned v _ refl λ s. shared-le s (writing c text) v refl;
  waits = λ v. fewer-IsOwned v _ refl λ s. shared-le s waiting v refl;
}

-- The socket of a request that completes has no owner in the meantime.
pub record IsFreed (socket : ℕ) (v : View) : Type 0 where
  pub owned : IsOwned v
  pub free : owners socket v ≡ 0
  pub old : socket < v.next_socket

weight-cases : (s k : ℕ) → ((s ≡ k) × (weight s k ≡ 1)) ⊎ ((s ≢ k) × (weight s k ≡ 0))
weight-cases s k = elim (Bool-cases (s == k)) [
  | inl e ↦ inl (ground arith, ground arith)
  | inr e ↦ inr (ground arith, ground arith)
]

-- A free socket that is given out gets one owner.
module _ (socket : ℕ) (v u : View) (freed : IsFreed socket v) (next : u.next_socket ≡ v.next_socket)
    (more : (s : ℕ) → owners s u ≤ owners s v + weight s socket) where
  gives-single : (s : ℕ) → owners s u ≤ 1
  gives-single s = elim (weight-cases s socket) [
    | inl (it, one) ↦ omega (arith, more s, one, ap (λ k. owners k v) it, freed.free)
    | inr (other, no_weight) ↦ omega (arith, more s, no_weight, freed.owned.single s)
  ]

  gives-given : (s : ℕ) → u.next_socket ≤ s → owners s u ≡ 0
  gives-given s le = elim (weight-cases s socket) [
    | inl (it, one) ↦ absurd (omega (arith, it, freed.old, next, le))
    | inr (other, no_weight) ↦
        omega (arith, more s, no_weight, freed.owned.given s (omega (arith, next, le)))
  ]

  gives-IsOwned : IsOwned u
  gives-IsOwned = record { single = gives-single; given = gives-given }

pub IsFreed-Arrives :
    {automatic : Type 0} (socket : ℕ) → Arrives socket automatic (IsFreed socket) IsOwned
IsFreed-Arrives socket = record {
  leaves = λ v freed. freed.owned;
  joins_waiting = λ c v same freed.
      gives-IsOwned socket v (put_waiting c v) freed refl λ s.
        omega (arith, count_clients-emplace s c.id c v.manager.wait_clients, ap (weight s) same);
  joins = λ c v auto same free freed.
      gives-IsOwned socket v (put_client c.id c v) freed refl
        λ s. omega (arith, count_clients-emplace s c.id c v.manager.clients, ap (weight s) same);
}

-- The process without an operation.
abbrev pub taken : List Pending → List Pending → View → View
taken before behind v = record v { pending = before ++ behind }

module _ (before behind : List Pending) (op : Pending) (v : View)
    (found : v.pending ≡ before ++ op ∷ behind) (h : IsOwned v) where
  owners-taken : (s : ℕ) → owners s v ≡ owners s (taken before behind v) + held_by s op
  owners-taken s =
      omega (arith, ap (count_operations s) found, count_operations-middle s before behind op)

  pub taken-IsOwned : IsOwned (taken before behind v)
  taken-IsOwned =
      fewer-IsOwned v (taken before behind v) refl (λ s. omega (arith, owners-taken s)) h

  -- The socket that the operation alone held is free.
  pub taken-IsFreed : (socket : ℕ) → held_by socket op ≡ 1 → IsFreed socket (taken before behind v)
  taken-IsFreed socket held = record {
    owned = taken-IsOwned;
    free = omega (arith, owners-taken socket, held, h.single socket);
    old = elim (dec_lt socket v.next_socket) [
      | yes below ↦ below
      | no above ↦ absurd (omega (arith, owners-taken socket, held, h.given socket (omega arith)))
    ];
  }

-- The next accept, into a new socket.
pub accepting-IsOwned : (v : View) → IsOwned v → IsOwned (accepting_view v)
unfolding held_by
accepting-IsOwned v h = record {
  single = λ s. elim (weight-cases s v.next_socket) [
    | inl (it, one) ↦ omega (arith, grown s, one, h.given s (omega (arith, it)))
    | inr (other, no_weight) ↦ omega (arith, grown s, no_weight, h.single s)
  ];
  given = λ s le. elim (weight-cases s v.next_socket) [
    | inl (it, one) ↦ absurd (omega (arith, it, le))
    | inr (other, no_weight) ↦ omega (arith, grown s, no_weight, h.given s (omega (arith, le)))
  ];
}
  where
    grown : (s : ℕ) → owners s (accepting_view v) ≡ owners s v + weight s v.next_socket
    grown s = omega (
      arith,
      count_operations-append s v.pending (accepting v.next_socket ∷ []),
      count_operations-one s (accepting v.next_socket),
    )

pub requesting-IsOwned :
    (socket : ℕ) (v : View) → IsFreed socket v → IsOwned (put_operation (requesting socket) v)
unfolding held_by
requesting-IsOwned socket v freed =
    gives-IsOwned socket v (put_operation (requesting socket) v) freed refl λ s. omega (
      arith,
      count_operations-append s v.pending (requesting socket ∷ []),
      count_operations-one s (requesting socket),
    )

pub weight_self : (s : ℕ) → weight s s ≡ 1
weight_self s = ground arith
