-- ===== src/Session/Blind/Steps.antt =====
-- The single steps of the session, the sockets and the log, from the maps in another order.
use mathlib.Core.List.Permᴰ
use kuro_net.Prelude.{◌++◌, ℕ, ◌≡◌, inl, inr, refl, List, [], ◌∷◌, nat_eq, list_eq, Bool-cases}
use kuro_net.Prelude.Map.{lookup, erase, emplace}
use kuro_net.Prelude.Map.Reorder.{Reordered, lookup-Reordered, erase-Reordered, emplace-Reordered}
use kuro_net.Text.{Bytes}
use kuro_net.Logger.{Level}
use kuro_net.Platform.{Platform, ErrorCode}
use kuro_net.Random.{random_generate_str}
use kuro_net.Random.Shape.{random_generate_str_lem}
use kuro_net.World.{World, Client, Pending, log, on_socket, start_operation}
use kuro_net.World.Reorder.{Reordering, Blind, Order, reordered, Blind-bind}
use kuro_net.Session.{check, has_error, write, set_manager, create_token}

module _ {p : Platform} where
  pub Blind-log : (level : Level) (text : Bytes) → Blind {p = p} (log level text)
  Blind-log level text = record { at = λ w r. (r, refl) }

  pub Blind-on_socket :
      (call : p.Sock → ErrorCode × p.Sock) (socket : ℕ)
      → Blind {p = p} (on_socket {p = p} call socket)
  Blind-on_socket call socket = record { at = λ w r. (r, refl) }

  pub Blind-start_operation : (op : Pending) → Blind {p = p} (start_operation op)
  Blind-start_operation op = record {
    at = λ w r. (
      record {
        clients = r.clients;
        waits = r.waits;
        pending = r.pending ++ op ∷ [];
        pending_perm = Permᴰ.append_right (op ∷ []) r.pending_perm;
      },
      refl,
    );
  }

  pub Blind-random_generate_str : (n : ℕ) → Blind {p = p} (random_generate_str n)
  Blind-random_generate_str n = record {
    at = λ w r.
        rw (random_generate_str_lem n w, random_generate_str_lem n (reordered w r)) (r, refl);
  }

  pub Blind-check : (ec : ErrorCode) → Blind {p = p} (check ec)
  Blind-check ec = elim (Bool-cases (has_error ec)) [
    | inl bad ↦ record { at = λ w r. rw bad (r, refl) }
    | inr good ↦ record { at = λ w r. rw good (r, refl) }
  ]

  pub Blind-write : (socket : ℕ) (text : Bytes) → Blind {p = p} (write socket text)
  unfolding write
  Blind-write socket text =
      Blind-bind (on_socket (p.write text) socket) check (Blind-on_socket (p.write text) socket)
        Blind-check

  -- A step on the approved clients, or on those that wait, that can be done in every order.
  abbrev with_clients :
      (w : World p) (m : List (Bytes × Client)) (r : Order w)
      → Reordered m
      → Reordering (record w.manager { clients = m }) w.pending
  with_clients w m r other = record {
    clients = other;
    waits = r.waits;
    pending = r.pending;
    pending_perm = r.pending_perm;
  }

  abbrev with_waits :
      (w : World p) (m : List (Bytes × Client)) (r : Order w)
      → Reordered m
      → Reordering (record w.manager { wait_clients = m }) w.pending
  with_waits w m r other = record {
    clients = r.clients;
    waits = other;
    pending = r.pending;
    pending_perm = r.pending_perm;
  }

  pub Blind-create_token : (token : Bytes) → Blind {p = p} (create_token token)
  unfolding create_token
  Blind-create_token token = record {
    at = λ w r. (
      record {
        clients = r.clients;
        waits = r.waits;
        pending = r.pending;
        pending_perm = r.pending_perm;
      },
      refl,
    );
  }

  pub Blind-erase_client :
      (id : Bytes) → Blind {p = p} (set_manager λ m. record m { clients = erase id m.clients })
  Blind-erase_client id = record {
    at = λ w r. (with_clients w _ r (erase-Reordered id w.manager.clients r.clients), refl);
  }

  pub Blind-erase_waiting :
      (id : Bytes)
      → Blind {p = p} (set_manager λ m. record m { wait_clients = erase id m.wait_clients })
  Blind-erase_waiting id = record {
    at = λ w r. (with_waits w _ r (erase-Reordered id w.manager.wait_clients r.waits), refl);
  }

  pub Blind-emplace_client :
      (id : Bytes) (c : Client)
      → Blind {p = p} (set_manager λ m. record m { clients = emplace id c m.clients })
  Blind-emplace_client id c = record {
    at = λ w r. (with_clients w _ r (emplace-Reordered id c w.manager.clients r.clients), refl);
  }

  pub Blind-emplace_waiting :
      (id : Bytes) (c : Client)
      → Blind {p = p} (set_manager λ m. record m { wait_clients = emplace id c m.wait_clients })
  Blind-emplace_waiting id c = record {
    at = λ w r. (with_waits w _ r (emplace-Reordered id c w.manager.wait_clients r.waits), refl);
  }

  pub found_waiting :
      (id : Bytes) (w : World p) (r : Order w)
      → lookup id r.waits.entries ≡ lookup id w.manager.wait_clients
  found_waiting id w r = lookup-Reordered id w.manager.wait_clients r.waits

  pub found_client :
      (id : Bytes) (w : World p) (r : Order w)
      → lookup id r.clients.entries ≡ lookup id w.manager.clients
  found_client id w r = lookup-Reordered id w.manager.clients r.clients
