-- ===== src/Process/Loop/Admission.antt =====
-- Who gets among the approved clients over runs of the event loop, and how.
use mathlib.Core.Path.{subst}
use kuro_net.Prelude.{ℕ, ◌≡◌, ◌⊎◌, refl, sym, inl, inr, some, List, [], ◌∷◌, ◌++◌, nat_eq, list_eq}
use kuro_net.Prelude.Map.{lookup}
use kuro_net.Text.{Bytes}
use kuro_net.Platform.{Platform, ErrorCode}
use kuro_net.World.{World, Client, Pending, requesting, view}
use kuro_net.Session.Keeps.{view-Stands}
use kuro_net.Session.Admission.{
  IsGranted, IsGuarded, IsGuarded-refl, IsGuarded-Closed, Welcomes-Arrives,
}
use kuro_net.Commands.Clients.{operations, approves}
use kuro_net.Commands.Token.{part}
use kuro_net.Server.Keeps.{Turns-on_request, on_accept_lem, request_of, IsAutomatic}
use kuro_net.Process.{
  Event, requested, read, written, timed, token_commands, clients_commands, happens,
}
use kuro_net.Process.Keeps.{IsInner, happens-inner}
use kuro_net.Process.Loop.{
  Completes, accepts, requests, reads, writes, waits, Calls, starts_chat, stops_chat, stops_server,
  gives_token, gives_client, without, Step, runs, is_called, Reach, here, later,
}

-- The command is `client approve`, of this id and with this token.
abbrev pub Names : List Bytes → Bytes → Bytes → Type 0
Names cmd id token =
    (lookup (part cmd 1) operations ≡ some approves) × (id ≡ part cmd 2) × (token ≡ part cmd 3)

-- No id may be approved.
abbrev Nobody : Bytes → Bytes → Type 0
Nobody id token = ⊥

-- The two ways by which a step lets `c` in, under `id`: the operator's command names the id, which
-- waited, and an active token, which `c` gets; or a request that is read from the socket of `c` has the
-- word for an automatic approval, and `c` has no token.
pub data Admits {p : Platform} (id : Bytes) (c : Client) (u v : World p) : Type 0 where
  by_operator :
      (cmd : List Bytes)
      → v ≡ happens (clients_commands cmd) u
      → IsGranted (Names cmd) id c (view u) v.manager.active_tokens
      → Admits id c u v
  by_request :
      (before behind : List Pending) (ec : ErrorCode) (buffer : Bytes) (n : ℕ)
      → u.pending ≡ before ++ requesting c.socket ∷ behind
      → v ≡ happens (requested ec c.socket buffer n) (without before behind u)
      → IsAutomatic (request_of buffer n)
      → c.token ≡ []
      → c.id ≡ id
      → Admits id c u v

module _ {p : Platform} (id : Bytes) (c : Client) where
  -- An event in which nobody is let in.
  inner-before :
      (e : Event) (u : World p)
      → IsInner Nobody e
      → lookup id (happens e u).manager.clients ≡ some c
      → lookup id u.manager.clients ≡ some c
  inner-before e u inner there =
      let guarded : IsGuarded Nobody id (view u) (view (happens e u)) =
        happens-inner IsGuarded-Closed e u inner IsGuarded-refl in
      elim (guarded.approved c there) [ inl before ↦ before | inr granted ↦ absurd granted.allowed ]

  runs-Admits :
      (before behind : List Pending) {op : Pending} {e : Event} (u : World p)
      → Completes op e
      → u.pending ≡ before ++ op ∷ behind
      → lookup id (happens e (without before behind u)).manager.clients ≡ some c
      → (lookup id u.manager.clients ≡ some c) ⊎ Admits id c u (happens e (without before behind u))
  unfolding happens
  runs-Admits before behind u (accepts socket ec) found there = inl (
      subst (λ v. lookup id v.manager.clients ≡ some c)
        ((on_accept_lem ec socket (without before behind u)).1) there)
  runs-Admits before behind u (requests socket ec buffer n) found there =
      let welcomes =
        (Turns-on_request socket ec buffer n
            (Welcomes-Arrives socket (IsAutomatic (request_of buffer n)) id (view u))).at
          (without before behind u) refl in
      elim (welcomes c there) [
        | inl already ↦ inl already
        | inr (auto, its, free, keyed) ↦
            inr (by_request before behind ec buffer n (rw its found) (rw its refl) auto free keyed)
      ]
  runs-Admits before behind u (reads i client ec buffer) found there =
      inl (inner-before (read ec i client buffer) (without before behind u) tt there)
  runs-Admits before behind u (writes client text ec) found there =
      inl (inner-before (written ec client) (without before behind u) tt there)
  runs-Admits before behind u waits found there =
      inl (inner-before timed (without before behind u) tt there)

  command-Admits :
      (cmd : List Bytes) (u : World p)
      → lookup id (happens (clients_commands cmd) u).manager.clients ≡ some c
      → (lookup id u.manager.clients ≡ some c) ⊎ Admits id c u (happens (clients_commands cmd) u)
  command-Admits cmd u there =
      let guarded : IsGuarded (Names cmd) id (view u) (view (happens (clients_commands cmd) u)) =
        happens-inner IsGuarded-Closed (clients_commands cmd) u (λ e. (e, refl, refl))
          IsGuarded-refl in
      elim (guarded.approved c there) [
        | inl before ↦ inl before
        | inr granted ↦ inr (by_operator cmd refl granted)
      ]

  Calls-Admits :
      {e : Event} (u : World p)
      → Calls e
      → lookup id (happens e u).manager.clients ≡ some c
      → (lookup id u.manager.clients ≡ some c) ⊎ Admits id c u (happens e u)
  Calls-Admits u starts_chat there = inl (inner-before _ u tt there)
  Calls-Admits u stops_chat there = inl (inner-before _ u tt there)
  Calls-Admits u stops_server there = inl (inner-before _ u tt there)
  Calls-Admits u (gives_token cmd) there = inl (inner-before (token_commands cmd) u tt there)
  Calls-Admits u (gives_client cmd) there = command-Admits cmd u there

  Step-Admits :
      {u v : World p}
      → Step u v
      → lookup id v.manager.clients ≡ some c
      → (lookup id u.manager.clients ≡ some c) ⊎ Admits id c u v
  Step-Admits {u} {v} (runs before behind {op} {e} found completes same) there =
      subst (λ t. (lookup id u.manager.clients ≡ some c) ⊎ Admits id c u t) (sym same)
        (runs-Admits before behind u completes found
          (subst (λ t. lookup id t.manager.clients ≡ some c) same there))
  Step-Admits {u} {v} (is_called calls same) there =
      subst (λ t. (lookup id u.manager.clients ≡ some c) ⊎ Admits id c u t) (sym same)
        (Calls-Admits u calls (subst (λ t. lookup id t.manager.clients ≡ some c) same there))

  -- Over every run of the event loop and of the calls of the other threads, a client that is approved in
  -- the end, under an id, was approved already at the beginning, or was let in by a step on the way, in
  -- one of two ways: the operator's command `client approve` named the id, which waited then, and a token
  -- that is active, which the client got; or a request that was read from the client's socket holds the
  -- word `auto`, and the client has no token.
  pub Reach-Admits :
      {w u : World p}
      → Reach w u
      → lookup id u.manager.clients ≡ some c
      → (lookup id w.manager.clients ≡ some c)
        ⊎ ((v v' : World p) × Reach w v × Admits id c v v' × Reach v' u)
  Reach-Admits here there = inl there
  Reach-Admits {w} {u} (later {u = v} reach step) there = elim (Step-Admits step there) [
    | inl before ↦ elim (Reach-Admits reach before) [
      | inl first ↦ inl first
      | inr (t, t', early, admits, on) ↦ inr (t, t', early, admits, later on step)
    ]
    | inr admits ↦ inr (v, u, reach, admits, here)
  ]
