-- ===== src/Commands/Clients/Outcomes.antt =====
-- `client approve` as the terminal runs it.
use kuro_net.Prelude.{
  ℕ, suc, ◌≡◌, refl, Bool, true, false, List, ◌∷◌, nat_eq, list_eq, if◌then◌else◌, arith, length,
  list_beq, ltb,
}
use kuro_net.Prelude.Map.{lookup, emplace}
use kuro_net.Text.{Bytes, codes}
use kuro_net.Logger.{command}
use kuro_net.Platform.{Platform}
use kuro_net.Exec.{Outcome, ok, throw, undefined, after, pure}
use kuro_net.Session.{approve_client}
use kuro_net.World.{World, log}
use kuro_net.Commands.Clients.{execute, approve}

long_enough :
    (n : ℕ) → (ltb (suc (suc (suc (suc n)))) 2 ≡ false) × (ltb (suc (suc (suc (suc n)))) 4 ≡ false)
long_enough n = (ground arith, ground arith)

module _ {p : Platform} where
  abbrev pub commanded : List Bytes → World p → World p
  commanded cmd w = record w { clients_command = cmd }

  -- How the outcome of an approval shows outside: an answer of either kind is only logged, an exception goes on.
  abbrev pub Shows : Outcome Bool × World p → Outcome (Unit {0}) × World p → Type 0
  Shows (ok b, v) r = (r.0 ≡ ok tt) × (r.1.manager ≡ v.manager) × (r.1.sockets ≡ v.sockets)
  Shows (throw e, v) r = r ≡ (throw e, v)
  Shows (undefined, v) r = r ≡ (undefined, v)

  shows :
      (text : Bytes) (r : Outcome Bool × World p)
      → Shows r (after r λ approved. if approved then log command text else pure tt)
  shows text (ok true, v) = (refl, refl, refl)
  shows text (ok false, v) = (refl, refl, refl)
  shows text (throw e, v) = refl
  shows text (undefined, v) = refl

  -- `client approve` with an id and a token, whatever follows, does to the maps and the sockets what
  -- `approve_client` does with them: an answer of it is only logged, and an exception passes on.
  pub execute_approve :
      (name user_id token : Bytes) (rest : List Bytes) (w : World p)
      → let cmd = name ∷ codes "approve" ∷ user_id ∷ token ∷ rest in
        Shows (approve_client user_id token (commanded cmd w)) (execute cmd w)
  unfolding execute approve list_beq lookup emplace
  execute_approve name user_id token rest w =
      rw (execute, (long_enough (length rest)).0, (long_enough (length rest)).1) (shows _ _)
