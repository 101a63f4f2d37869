-- ===== src/Tests/SessionTests.antt =====
-- Instances of the theorems on `ClientSessionManager`.
use kuro_net.Prelude.{
  ◌↔◌, ◌≡◌, refl, false, none, List, [], ◌∷◌, inl, nat_eq, list_eq, ◌==◌, if◌then◌else◌, list_beq,
}
use kuro_net.Prelude.Map.{lookup, erase}
use kuro_net.Text.{Bytes, codes}
use kuro_net.Exec.{ok}
use kuro_net.Session.{remove_client, approve_client, token_active, is_client_really_dead, write}
use kuro_net.Session.Valid.{IsValid}
use kuro_net.Session.Invariant.{Call, auto_approves, removes, creates, approves, walks}
use kuro_net.Session.Approval.{Approves, approve_client-Approves}
use kuro_net.Session.Removal.{remove_client_lem, IsIdle, alive_iff_IsIdle}
use kuro_net.Tests.Sample.{client, manager, world}

pub manager-IsValid : IsValid manager
unfolding lookup list_beq
manager-IsValid = record {
  clients_unique = (refl, (refl, tt));
  waiting_unique = (refl, (refl, (refl, tt)));
  clients_keyed = (refl, (refl, tt));
  waiting_keyed = (refl, (refl, (refl, tt)));
  clients_trusted = (inl refl, (inl refl, tt));
}

abbrev calls : List Call
calls =
    creates (codes "sess.y")
    ∷ approves (codes "w") (codes "sess.y")
    ∷ auto_approves (client (codes "e") 5)
    ∷ removes (codes "c")
    ∷ walks
    ∷ []

approve_client-Approves_example :
    Approves (codes "w") (codes "perm.x") world (approve_client (codes "w") (codes "perm.x") world)
approve_client-Approves_example = approve_client-Approves (codes "w") (codes "perm.x") world

-- The write to the broken socket throws.
approve_broken :
    (approve_client (codes "b") (codes "perm.x") world).1.manager.wait_clients
    ≡ (codes "t", client (codes "t") 1) ∷ (codes "w", client (codes "w") 4) ∷ []
unfolding approve_client write token_active lookup erase list_beq
approve_broken = refl

remove_client_lem_example :
    ((remove_client (codes "c") world).0 ≡ ok tt)
    × ((remove_client (codes "c") world).1.manager.wait_clients ≡ manager.wait_clients)
    × ((j : Bytes)
        → lookup j (remove_client (codes "c") world).1.manager.clients
          ≡ (if codes "c" == j then none else lookup j manager.clients))
remove_client_lem_example = remove_client_lem (codes "c") world

alive_iff_IsIdle_example : ((is_client_really_dead 4 world).0 ≡ ok false) ↔ IsIdle 4 world
alive_iff_IsIdle_example = alive_iff_IsIdle 4 world
