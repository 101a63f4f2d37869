-- ===== src/Session/Approval.antt =====
-- What `approve_client` does, on every branch.
use kuro_net.Prelude.{
  ◌≡◌, ◌≢◌, ◌⊎◌, ◌↔◌, inl, inr, refl, Bool, true, false, Option, none, some, nat_eq, list_eq,
  Bool-cases, Option-cases,
}
use kuro_net.Prelude.Map.{
  lookup, erase, emplace, kept_or, lookup-erase_self, lookup-erase_ne, lookup-emplace_self,
  lookup-emplace_ne,
}
use kuro_net.Text.{Bytes}
use kuro_net.Platform.{Platform}
use kuro_net.Exec.{Outcome, ok, throw, undefined}
use kuro_net.World.{World, Client}
use kuro_net.Session.{
  token_active, add_client, approve_client, admit, read_extracted, write, has_error, literal,
}

module _ {p : Platform} where
  -- What an approval leaves behind: the user waits no longer, and stands among the clients with the token,
  -- unless the id was taken there. Other users keep their places.
  pub record Admitted (user_id token : Bytes) (client : Client) (w v : World p) : Type 0 where
    pub waited : lookup user_id w.manager.wait_clients ≡ some client
    pub not_waiting : lookup user_id v.manager.wait_clients ≡ none
    pub entered :
        lookup user_id v.manager.clients
        ≡ some (kept_or (lookup user_id w.manager.clients) (record client { token = token }))
    pub others :
        (j : Bytes)
        → j ≢ user_id
        → (lookup j v.manager.clients ≡ lookup j w.manager.clients)
          × (lookup j v.manager.wait_clients ≡ lookup j w.manager.wait_clients)

  -- An approval that ends at the write: the user is in neither map, unless the id was taken.
  pub record Lost (user_id : Bytes) (w v : World p) : Type 0 where
    pub waited : lookup user_id w.manager.wait_clients ≢ none
    pub not_waiting : lookup user_id v.manager.wait_clients ≡ none
    pub not_entered : v.manager.clients ≡ w.manager.clients

  -- The approval comes to the write, and the library does not let the iterator be read there.
  pub record Extracts (user_id token : Bytes) (w : World p) : Type 0 where
    pub unreadable : p.reads_extracted ≡ false
    pub active : token_active token w.manager.active_tokens ≡ true
    pub client : Client
    pub waited : lookup user_id w.manager.wait_clients ≡ some client

  abbrev pub Approves : Bytes → Bytes → World p → Outcome Bool × World p → Type 0
  Approves user_id token w (ok true, v) =
      (p.reads_extracted ≡ true)
      × (token_active token w.manager.active_tokens ≡ true)
      × ((client : Client) × Admitted user_id token client w v)
  Approves user_id token w (ok false, v) =
      ((token_active token w.manager.active_tokens ≡ false)
        ⊎ (lookup user_id w.manager.wait_clients ≡ none))
      × (v.manager ≡ w.manager)
      × (v.sockets ≡ w.sockets)
  Approves user_id token w (throw e, v) =
      (p.reads_extracted ≡ true)
      × (token_active token w.manager.active_tokens ≡ true)
      × Lost user_id w v
  Approves user_id token w (undefined, v) = Extracts user_id token w × Lost user_id w v

  admit-Approves :
      (user_id token : Bytes) (o : Option Client) (w : World p)
      → token_active token w.manager.active_tokens ≡ true
      → lookup user_id w.manager.wait_clients ≡ o
      → Approves user_id token w (admit user_id token o w)
  unfolding admit write read_extracted
  admit-Approves user_id token none w active waits = (inr waits, refl, refl)
  admit-Approves user_id token (some c) w active waits =
      let failed = has_error ((p.write (literal "You are approved\n") (w.sockets c.socket)).0) in
      let lost : Lost user_id w (record w {
        manager = record (w.manager) { wait_clients = erase user_id w.manager.wait_clients };
      }) =
        record {
          waited = λ n. cc;
          not_waiting = lookup-erase_self user_id w.manager.wait_clients;
          not_entered = refl;
        } in
      elim (Bool-cases p.reads_extracted) [
        | inr unreadable ↦
            rw (admit, unreadable)
              (
                record { unreadable = unreadable; active = active; client = c; waited = waits },
                lost,
              )
        | inl readable ↦ elim (Bool-cases failed) [
          | inl e ↦
              rw (admit, readable, e)
                (
                  readable,
                  active,
                  record {
                    waited = lost.waited;
                    not_waiting = lost.not_waiting;
                    not_entered = refl;
                  },
                )
          | inr e ↦
              rw (admit, readable, e)
                (
                  readable,
                  active,
                  (
                    c,
                    record {
                      waited = waits;
                      not_waiting = lookup-erase_self user_id w.manager.wait_clients;
                      entered = lookup-emplace_self user_id _ w.manager.clients;
                      others = λ j h. (
                        lookup-emplace_ne user_id j _ w.manager.clients h,
                        lookup-erase_ne user_id j w.manager.wait_clients h,
                      );
                    },
                  ),
                )
        ]
      ]

  -- Every outcome of an approval. True: the token is active and the user waited, waits no longer, and is
  -- now among the clients with the token, unless its id was taken there. False: the token is not
  -- active or the user does not wait, and maps and sockets are as before. An exception of the write:
  -- the token is active, the user waited and waits no longer, and the clients are as before. These
  -- are the outcomes where the library lets the iterator of the extracted element be read; where it
  -- does not, an approval with an active token of a user that waits is undefined at the write.
  pub approve_client-Approves :
      (user_id token : Bytes) (w : World p)
      → Approves user_id token w (approve_client user_id token w)
  unfolding approve_client
  approve_client-Approves user_id token w =
      elim (Bool-cases (token_active token w.manager.active_tokens)) [
        | inl e ↦ rw (e, approve_client) (admit-Approves user_id token _ w e refl)
        | inr e ↦ rw (e, approve_client) (inl e, refl, refl)
      ]

  Approves-undefined :
      (user_id token : Bytes) (w : World p) (r : Outcome Bool × World p)
      → Approves user_id token w r
      → r.0 ≡ undefined
      → Extracts user_id token w
  Approves-undefined user_id token w (ok true, v) h e = cc
  Approves-undefined user_id token w (ok false, v) h e = cc
  Approves-undefined user_id token w (throw x, v) h e = cc
  Approves-undefined user_id token w (undefined, v) h e = h.0

  -- An approval is undefined only there, and there it is.
  pub approve_client_undefined_iff :
      (user_id token : Bytes) (w : World p)
      → ((approve_client user_id token w).0 ≡ undefined) ↔ Extracts user_id token w
  unfolding approve_client admit read_extracted
  approve_client_undefined_iff user_id token w = (
    Approves-undefined user_id token w (approve_client user_id token w)
        (approve_client-Approves user_id token w),
    λ h. rw (approve_client, h.active, h.waited, admit, h.unreadable) refl,
  )

  -- `add_client` returns. The client waits under its id, unless somebody waits there.
  pub add_client_lem :
      (c : Client) (w : World p)
      → ((add_client c w).0 ≡ ok tt)
        × ((add_client c w).1.manager
            ≡ record (w.manager) { wait_clients = emplace c.id c w.manager.wait_clients })
  unfolding add_client emplace
  add_client_lem c w = elim (Option-cases (lookup c.id w.manager.wait_clients)) [
    | inl e ↦ rw (e, add_client) (refl, rw (e, emplace))
    | inr (old, e) ↦ rw (e, add_client) (refl, rw (e, emplace))
  ]
