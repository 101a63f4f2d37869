-- ===== src/Session/Admission.antt =====
-- How a client gets into the map of the approved ones.
use mathlib.Core.Path.{subst}
use kuro_net.Prelude.{ℕ, ◌≡◌, ◌⊎◌, inl, inr, true, some, List, [], ◌∷◌, ◌++◌, nat_eq, list_eq}
use kuro_net.Prelude.Map.{lookup, erase-some, emplace-some}
use kuro_net.Text.{Bytes}
use kuro_net.Platform.{Platform}
use kuro_net.World.{Client, View, view}
use kuro_net.Session.{token_active}
use kuro_net.Session.Keeps.{forget_waiting, put_client, put_token}
use kuro_net.Session.Closed.{Closed, viewed, Arrives}
use kuro_net.Session.Valid.{token_active-append}

-- An approval of one who waited in `u`: the id and the token are allowed, and the token is one of those
-- that are active.
pub record IsGranted (allows : Bytes → Bytes → Type 0) (id : Bytes) (c : Client) (u : View)
    (tokens : List Bytes) : Type 0 where
  pub token : Bytes
  pub allowed : allows id token
  pub active : token_active token tokens ≡ true
  pub applicant : Client
  pub waited : lookup id u.manager.wait_clients ≡ some applicant
  pub entered : c ≡ record applicant { token = token }

-- From `u` to `v`, no one has come to wait under `id`, and the approved client of `id`, if there is
-- one, was there before or has been let in by an approval that is allowed.
pub record IsGuarded (allows : Bytes → Bytes → Type 0) (id : Bytes) (u v : View) : Type 0 where
  pub waits :
      (c : Client)
      → lookup id v.manager.wait_clients ≡ some c
      → lookup id u.manager.wait_clients ≡ some c
  pub approved :
      (c : Client)
      → lookup id v.manager.clients ≡ some c
      → (lookup id u.manager.clients ≡ some c) ⊎ IsGranted allows id c u v.manager.active_tokens

module _ {allows : Bytes → Bytes → Type 0} {id : Bytes} {u : View} where
  pub IsGuarded-refl : IsGuarded allows id u u
  IsGuarded-refl = record { waits = λ c e. e; approved = λ c e. inl e }

  -- The tokens that are active become more only.
  puts_token-IsGranted :
      (new : Bytes) (c : Client) (tokens : List Bytes)
      → IsGranted allows id c u tokens
      → IsGranted allows id c u (tokens ++ new ∷ [])
  puts_token-IsGranted new c tokens g = record {
    token = g.token;
    allowed = g.allowed;
    active = token_active-append g.token new tokens g.active;
    applicant = g.applicant;
    waited = g.waited;
    entered = g.entered;
  }

  puts_token-IsGuarded :
      (new : Bytes) (v : View) → IsGuarded allows id u v → IsGuarded allows id u (put_token new v)
  puts_token-IsGuarded new v h = record {
    waits = h.waits;
    approved = λ c e. elim (h.approved c e) [
      | inl before ↦ inl before
      | inr granted ↦ inr (puts_token-IsGranted new c v.manager.active_tokens granted)
    ];
  }

  -- One who waits in `v` is let in.
  admits-IsGuarded :
      (i token : Bytes) (applicant : Client) (v : View)
      → allows i token
      → token_active token v.manager.active_tokens ≡ true
      → lookup i v.manager.wait_clients ≡ some applicant
      → IsGuarded allows id u v
      → IsGuarded allows id u
          (put_client i (record applicant { token = token }) (forget_waiting i v))
  admits-IsGuarded i token applicant v allowed active waiting h = record {
    waits = λ c e. h.waits c (erase-some i id c v.manager.wait_clients e);
    approved = λ c e. elim (emplace-some i id _ c v.manager.clients e) [
      | inl before ↦ h.approved c before
      | inr (here, entered) ↦ inr (record {
        token = token;
        allowed = subst (λ j. allows j token) here allowed;
        active = active;
        applicant = applicant;
        waited =
            h.waits applicant
              (subst (λ j. lookup j v.manager.wait_clients ≡ some applicant) here waiting);
        entered = entered;
      })
    ];
  }

  pub IsGuarded-Closed : {p : Platform} → Closed {p = p} allows view (IsGuarded allows id u)
  IsGuarded-Closed = viewed record {
    forgets_waiting = λ i v h. record {
      waits = λ c e. h.waits c (erase-some i id c v.manager.wait_clients e);
      approved = h.approved;
    };
    forgets_client = λ i v h. record {
      waits = h.waits;
      approved = λ c e. h.approved c (erase-some i id c v.manager.clients e);
    };
    puts_token = puts_token-IsGuarded;
    admits = λ i token c v allowed active waiting h.
        admits-IsGuarded i token c v allowed active waiting h;
    reads = λ i c v h. record { waits = h.waits; approved = h.approved };
    writes = λ c text v h. record { waits = h.waits; approved = h.approved };
    waits = λ v h. record { waits = h.waits; approved = h.approved };
  }

-- Behind a request, the approved client of `id` was there before, or has come with the request, which
-- asked for it: with its socket and with no token.
abbrev pub Welcomes : ℕ → Type 0 → Bytes → View → View → Type 0
Welcomes socket automatic id u v =
    (c : Client)
    → lookup id v.manager.clients ≡ some c
    → (lookup id u.manager.clients ≡ some c)
      ⊎ (automatic × (c.socket ≡ socket) × (c.token ≡ []) × (c.id ≡ id))

pub Welcomes-Arrives :
    (socket : ℕ) (automatic : Type 0) (id : Bytes) (u : View)
    → Arrives socket automatic (λ v. v.manager ≡ u.manager) (Welcomes socket automatic id u)
Welcomes-Arrives socket automatic id u = record {
  leaves = λ v same c e. inl (subst (λ m. lookup id m.clients ≡ some c) same e);
  joins_waiting = λ new v here same c e. inl (subst (λ m. lookup id m.clients ≡ some c) same e);
  joins = λ new v auto here free same c e. elim (emplace-some new.id id new c v.manager.clients e) [
    | inl before ↦ inl (subst (λ m. lookup id m.clients ≡ some c) same before)
    | inr (its, entered) ↦ inr (auto, rw entered here, rw entered free, rw entered its)
  ];
}
