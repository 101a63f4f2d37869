-- ===== src/Session/Valid.antt =====
-- The invariant of `ClientSessionManager`, and the ways in which its maps change.
use kuro_net.Prelude.{◌≡◌, ◌⊎◌, inr, refl, true, List, [], ◌∷◌, ◌++◌, nat_eq, list_eq, arith, All}
use kuro_net.Prelude.Map.{
  emplace, erase, IsUnique, erase-IsUnique, emplace-IsUnique, erase-All, emplace-All,
}
use kuro_net.Text.{Bytes}
use kuro_net.World.{Client, Manager}
use kuro_net.Session.{token_active}

-- An entry stands under the id of its client.
abbrev pub IsKeyed : Bytes × Client → Type 0
IsKeyed e = e.0 ≡ e.1.id

-- The client has no token, as one that was approved automatically, or an active one.
abbrev pub IsTrusted : List Bytes → Bytes × Client → Type 0
IsTrusted tokens e = (e.1.token ≡ []) ⊎ (token_active (e.1.token) tokens ≡ true)

pub record IsValid (m : Manager) : Type 0 where
  pub clients_unique : IsUnique m.clients
  pub waiting_unique : IsUnique m.wait_clients
  pub clients_keyed : All IsKeyed m.clients
  pub waiting_keyed : All IsKeyed m.wait_clients
  pub clients_trusted : All (IsTrusted m.active_tokens) m.clients

-- A new token leaves the old ones active.
pub token_active-append :
    (token new : Bytes) (tokens : List Bytes)
    → token_active token tokens ≡ true
    → token_active token (tokens ++ new ∷ []) ≡ true
unfolding token_active
token_active-append token new [] h = cc
token_active-append token new (t ∷ ts) h = ground (arith, token_active-append token new ts)

IsTrusted-append :
    (new : Bytes) (tokens : List Bytes) (m : List (Bytes × Client))
    → All (IsTrusted tokens) m
    → All (IsTrusted (tokens ++ new ∷ [])) m
IsTrusted-append new tokens [] all = tt
IsTrusted-append new tokens ((k, c) ∷ m) all =
    ground (arith, token_active-append c.token new tokens, IsTrusted-append new tokens m all.1)

-- The three ways in which a map of the manager changes.
pub forget_waiting-IsValid :
    (id : Bytes) (m : Manager)
    → IsValid m
    → IsValid (record m { wait_clients = erase id m.wait_clients })
forget_waiting-IsValid id m v = record {
  clients_unique = v.clients_unique;
  waiting_unique = erase-IsUnique id m.wait_clients v.waiting_unique;
  clients_keyed = v.clients_keyed;
  waiting_keyed = erase-All IsKeyed id m.wait_clients v.waiting_keyed;
  clients_trusted = v.clients_trusted;
}

pub forget_client-IsValid :
    (id : Bytes) (m : Manager) → IsValid m → IsValid (record m { clients = erase id m.clients })
forget_client-IsValid id m v = record {
  clients_unique = erase-IsUnique id m.clients v.clients_unique;
  waiting_unique = v.waiting_unique;
  clients_keyed = erase-All IsKeyed id m.clients v.clients_keyed;
  waiting_keyed = v.waiting_keyed;
  clients_trusted = erase-All (IsTrusted m.active_tokens) id m.clients v.clients_trusted;
}

pub put_token-IsValid :
    (token : Bytes) (m : Manager)
    → IsValid m
    → IsValid (record m { active_tokens = m.active_tokens ++ token ∷ [] })
put_token-IsValid token m v = record {
  clients_unique = v.clients_unique;
  waiting_unique = v.waiting_unique;
  clients_keyed = v.clients_keyed;
  waiting_keyed = v.waiting_keyed;
  clients_trusted = IsTrusted-append token m.active_tokens m.clients v.clients_trusted;
}

pub put_waiting-IsValid :
    (c : Client) (m : Manager)
    → IsValid m
    → IsValid (record m { wait_clients = emplace c.id c m.wait_clients })
put_waiting-IsValid c m v = record {
  clients_unique = v.clients_unique;
  waiting_unique = emplace-IsUnique c.id c m.wait_clients v.waiting_unique;
  clients_keyed = v.clients_keyed;
  waiting_keyed = emplace-All IsKeyed c.id c m.wait_clients refl v.waiting_keyed;
  clients_trusted = v.clients_trusted;
}

pub enter-IsValid :
    (c : Client) (m : Manager)
    → IsTrusted m.active_tokens (c.id, c)
    → IsValid m
    → IsValid (record m { clients = emplace c.id c m.clients })
enter-IsValid c m trusted v = record {
  clients_unique = emplace-IsUnique c.id c m.clients v.clients_unique;
  waiting_unique = v.waiting_unique;
  clients_keyed = emplace-All IsKeyed c.id c m.clients refl v.clients_keyed;
  waiting_keyed = v.waiting_keyed;
  clients_trusted =
      emplace-All (IsTrusted m.active_tokens) c.id c m.clients trusted v.clients_trusted;
}

-- The invariant, with one token that is active.
abbrev pub IsValidFor : Bytes → Manager → Type 0
IsValidFor token m = IsValid m × (token_active token m.active_tokens ≡ true)

-- The client `c` comes in with its id and the token.
pub enter_with-IsValidFor :
    (user_id token : Bytes) (c : Client)
    → user_id ≡ c.id
    → (m : Manager) → IsValidFor token m
    → IsValidFor token
        (record m { clients = emplace user_id (record c { token = token }) m.clients })
enter_with-IsValidFor user_id token c e m (v, active) =
    (rw e (enter-IsValid (record c { token = token }) m (inr active) v), active)
