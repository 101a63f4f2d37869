-- ===== src/Session/Invariant.antt =====
-- Every operation of `ClientSessionManager` keeps the invariant, on every outcome.
use kuro_net.Prelude.{ℕ, ◌≡◌, inl, true, some, List, [], ◌∷◌, nat_eq, list_eq, All}
use kuro_net.Prelude.Map.{lookup, lookup-All}
use kuro_net.Text.{Bytes}
use kuro_net.Platform.{Platform}
use kuro_net.Exec.{pure}
use kuro_net.World.{view, World, Client, View}
use kuro_net.Session.Keeps.{view-Stands, Keeps-pure, forget_waiting, put_client}
use kuro_net.Session.Closed.{
  Closed, Anyone, viewed, Arrives, Keeps-remove_client, Keeps-create_token, Keeps-approve_client,
  Keeps-access_wait_clients, add_client-arrives, auto_approve_client-arrives,
}
use kuro_net.Session.{
  token_active, add_client, remove_client, create_token, approve_client, auto_approve_client,
  access_wait_clients,
}
use kuro_net.Session.Valid.{
  IsKeyed, IsValid, forget_waiting-IsValid, forget_client-IsValid, put_token-IsValid,
  put_waiting-IsValid, enter-IsValid, enter_with-IsValidFor,
}

abbrev pub IsValidView : View → Type 0
IsValidView v = IsValid v.manager

admits-IsValid :
    (id token : Bytes) (c : Client) (v : View)
    → Anyone id token
    → token_active token v.manager.active_tokens ≡ true
    → lookup id v.manager.wait_clients ≡ some c
    → IsValidView v
    → IsValidView (put_client id (record c { token = token }) (forget_waiting id v))
admits-IsValid id token c v allowed active stands valid =
    let keyed = lookup-All IsKeyed id c v.manager.wait_clients valid.waiting_keyed stands in
    (enter_with-IsValidFor id token c keyed _ (forget_waiting-IsValid id v.manager valid, active)).0

pub IsValid-Closed : {p : Platform} → Closed {p = p} Anyone view IsValidView
IsValid-Closed = viewed record {
  forgets_waiting = λ id v. forget_waiting-IsValid id v.manager;
  forgets_client = λ id v. forget_client-IsValid id v.manager;
  puts_token = λ token v. put_token-IsValid token v.manager;
  admits = admits-IsValid;
  reads = λ id c v valid. valid;
  writes = λ c text v valid. valid;
  waits = λ v valid. valid;
}

-- A client that comes with no token may enter either map.
pub IsValid-Arrives :
    {automatic : Type 0} (socket : ℕ) → Arrives socket automatic IsValidView IsValidView
IsValid-Arrives socket = record {
  leaves = λ v valid. valid;
  joins_waiting = λ c v same. put_waiting-IsValid c v.manager;
  joins = λ c v auto same free. enter-IsValid c v.manager (inl free);
}

-- A call of the manager, as any thread may make it.
pub data Call : Type 0 where
  adds auto_approves : Client → Call
  removes creates : Bytes → Call
  approves : Bytes → Bytes → Call
  walks : Call

-- A client that is to be approved automatically has no token.
abbrev pub IsFree : Call → Type 0
IsFree (auto_approves c) = c.token ≡ []
IsFree _ = Unit

module _ {p : Platform} where
  -- The process behind a call, whether it returned or threw.
  unfoldable pub step : Call → World p → World p
  step (adds c) w = (add_client c w).1
  step (auto_approves c) w = (auto_approve_client c w).1
  step (removes id) w = (remove_client id w).1
  step (creates token) w = (create_token token w).1
  step (approves user_id token) w = (approve_client user_id token w).1
  step walks w = (access_wait_clients pure w).1

  unfoldable pub run : List Call → World p → World p
  unfolding step
  run [] w = w
  run (c ∷ cs) w = run cs (step c w)

  step-IsValid :
      (c : Call) (w : World p) → IsFree c → IsValid w.manager → IsValid (step c w).manager
  unfolding step
  step-IsValid (adds c) w free v =
      add_client-arrives c (IsValid-Arrives {automatic = Unit} c.socket) w v
  step-IsValid (auto_approves c) w free v =
      auto_approve_client-arrives c (IsValid-Arrives {automatic = Unit} c.socket) w tt free v
  step-IsValid (removes id) w free v = (Keeps-remove_client IsValid-Closed id).at w v
  step-IsValid (creates token) w free v = (Keeps-create_token IsValid-Closed token).at w v
  step-IsValid (approves user_id token) w free v =
      (Keeps-approve_client IsValid-Closed user_id token tt).at w v
  step-IsValid walks w free v =
      (Keeps-access_wait_clients IsValid-Closed pure (λ entries. Keeps-pure entries)).at w v

  -- Over every sequence of calls, from maps that are well formed, the maps keep one entry for each id,
  -- under the id of its client, and each approved client has an active token or none. The clients
  -- approved automatically are supposed to come without a token.
  pub run-IsValid :
      (cs : List Call) (w : World p)
      → All IsFree cs
      → IsValid w.manager
      → IsValid (run cs w).manager
  unfolding run
  run-IsValid [] w free v = v
  run-IsValid (c ∷ cs) w free v = run-IsValid cs (step c w) free.1 (step-IsValid c w free.0 v)
