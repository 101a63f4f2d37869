-- ===== src/Chat/Blind.antt =====
-- The operations and handlers of the chat do not depend on the order of the maps.
use mathlib.Core.Path.{subst}
use mathlib.Core.List.{Permᴰ}
use mathlib.Core.List.Permᴰ
use kuro_net.Prelude.{
  ◌≡◌, refl, ap, Bool, true, false, not, inl, inr, ◌==◌, ◌&&◌, nat_eq, list_eq, List, [], ◌∷◌, ◌++◌,
  Bool-cases,
}
use kuro_net.Text.{Bytes}
use kuro_net.Platform.{Platform, ErrorCode}
use kuro_net.Exec.{◌>>◌, pure}
use kuro_net.Logger.{error}
use kuro_net.World.{World, Client, Pending, reading, waiting, log, start_operation}
use kuro_net.World.Reorder.{
  Reordering, Blind, Order, reordered, Blind-pure, Blind-if, Blind-then, Blind-choose,
}
use kuro_net.Session.{has_error}
use kuro_net.Session.Blind.{Blind-log, Blind-start_operation, Blind-remove_client}
use kuro_net.Chat.{do_send, on_read, on_written, read_each, work, start, stop, set_started, line_of}
use kuro_net.Chat.Delivery.{deliveries, do_send_lem}
use kuro_net.Chat.Rounds.{reads_of, read_each_lem}

module _ {p : Platform} (w : World p) (sender message : Bytes) where
  cons_deliveries :
      (a : Bytes × Client) (m n : List (Bytes × Client))
      → Permᴰ (deliveries w sender message m) (deliveries w sender message n)
      → Permᴰ (deliveries w sender message (a ∷ m)) (deliveries w sender message (a ∷ n))
  unfolding deliveries
  cons_deliveries (id, client) m n d =
      elim (Bool-cases (not (id == sender) && p.is_open (w.sockets client.socket))) [
        | inl sent ↦ rw (deliveries, sent) (Permᴰ.cons refl d)
        | inr left ↦ rw (deliveries, left) d
      ]

  swap_deliveries :
      (a b : Bytes × Client) (l : List (Bytes × Client))
      → Permᴰ (deliveries w sender message (a ∷ b ∷ l)) (deliveries w sender message (b ∷ a ∷ l))
  unfolding deliveries
  swap_deliveries (id, client) (id', client') l =
      elim (Bool-cases (not (id == sender) && p.is_open (w.sockets client.socket))) [
        | inl first ↦
            elim (Bool-cases (not (id' == sender) && p.is_open (w.sockets client'.socket))) [
              | inl second ↦ rw (deliveries, first, second) (Permᴰ.swap refl refl)
              | inr left ↦ rw (deliveries, first, left) (Permᴰ.refl _)
            ]
        | inr left ↦ rw (deliveries, left) (Permᴰ.refl _)
      ]

  deliveries-reorder :
      {m n : List (Bytes × Client)}
      → Permᴰ m n
      → Permᴰ (deliveries w sender message m) (deliveries w sender message n)
  deliveries-reorder Permᴰ.nil = Permᴰ.refl (deliveries w sender message [])
  deliveries-reorder (Permᴰ.cons {a} {b} {l₁ = m} {l₂ = n} same d) =
      subst (λ c. Permᴰ (deliveries w sender message (a ∷ m)) (deliveries w sender message (c ∷ n)))
        same (cons_deliveries a m n (deliveries-reorder d))
  deliveries-reorder (Permᴰ.swap {a} {b} {a' = a'} {b' = b'} {l = l} first second) =
      let from = deliveries w sender message (a ∷ b ∷ l) in
      subst (λ c. Permᴰ from (deliveries w sender message (a' ∷ c ∷ l))) first
        (subst (λ c. Permᴰ from (deliveries w sender message (c ∷ a ∷ l))) second
          (swap_deliveries a b l))
  deliveries-reorder (Permᴰ.trans d f) = Permᴰ.trans (deliveries-reorder d) (deliveries-reorder f)

reads_of-reorder : {m n : List (Bytes × Client)} → Permᴰ m n → Permᴰ (reads_of m) (reads_of n)
unfolding reads_of
reads_of-reorder Permᴰ.nil = Permᴰ.nil
reads_of-reorder (Permᴰ.cons {a = (id, c)} {b = (id', c')} same d) =
    Permᴰ.cons (ap (λ e. reading e.0 e.1) same) (reads_of-reorder d)
reads_of-reorder
      (Permᴰ.swap {a = (i, c)} {b = (j, x)} {a' = (j', x')} {b' = (i', c')} first second) =
    Permᴰ.swap (ap (λ e. reading e.0 e.1) first) (ap (λ e. reading e.0 e.1) second)
reads_of-reorder (Permᴰ.trans d f) = Permᴰ.trans (reads_of-reorder d) (reads_of-reorder f)

module _ {p : Platform} where
  -- Further operations, in another order.
  abbrev with_more :
      (w : World p) (more other : List Pending) (r : Order w)
      → Permᴰ more other
      → Reordering w.manager (w.pending ++ more)
  with_more w more other r d = record {
    clients = r.clients;
    waits = r.waits;
    pending = r.pending ++ other;
    pending_perm =
        Permᴰ.trans (Permᴰ.append_right more r.pending_perm) (Permᴰ.append_left r.pending d);
  }

  -- The sockets alone decide who gets the message.
  deliveries_sockets :
      (sender message : Bytes) (entries : List (Bytes × Client)) (w : World p) (r : Order w)
      → deliveries (reordered w r) sender message entries ≡ deliveries w sender message entries
  unfolding deliveries
  deliveries_sockets sender message [] w r = refl
  deliveries_sockets sender message ((id, client) ∷ entries) w r =
      rw (deliveries_sockets sender message entries w r) refl

  Blind-do_send : (sender message : Bytes) → Blind {p = p} (do_send sender message)
  Blind-do_send sender message = record {
    at = λ w r.
        let more = deliveries w sender message w.manager.clients in
        let other = deliveries w sender message r.clients.entries in
        rw
          (
            do_send_lem sender message w,
            do_send_lem sender message (reordered w r),
            deliveries_sockets sender message r.clients.entries w r,
          )
          (with_more w more other r (deliveries-reorder w sender message r.clients.perm), refl);
  }

  pub Blind-on_read :
      (ec : ErrorCode) (id : Bytes) (client : Client) (buffer : Bytes)
      → Blind {p = p} (on_read ec id client buffer)
  unfolding on_read
  Blind-on_read ec id client buffer =
      Blind-if (has_error ec) _ (do_send id (line_of buffer))
        (Blind-then (log error _) _ (Blind-log error _) (Blind-remove_client id))
        (Blind-do_send id (line_of buffer))

  pub Blind-on_written : (ec : ErrorCode) (client : Client) → Blind {p = p} (on_written ec client)
  unfolding on_written
  Blind-on_written ec client =
      Blind-if (has_error ec) _ (pure tt)
        (Blind-then (log error _) _ (Blind-log error _) (Blind-remove_client client.login))
        (Blind-pure tt)

  Blind-reading : Blind {p = p} (λ w. read_each w.manager.clients w)
  Blind-reading = record {
    at = λ w r.
        rw
          (
            read_each_lem w.manager.clients w w.pending,
            read_each_lem r.clients.entries (reordered w r) r.pending,
          )
          (
            with_more w (reads_of w.manager.clients) (reads_of r.clients.entries) r
                (reads_of-reorder r.clients.perm),
            refl,
          );
  }

  pub Blind-work : Blind {p = p} work
  unfolding work
  Blind-work =
      Blind-choose (λ w. not w.chat_started) (pure tt) _ (λ w r. refl) (Blind-pure tt)
        (Blind-then (λ w. read_each w.manager.clients w) (start_operation waiting) Blind-reading
          (Blind-start_operation waiting))

  Blind-set_started : (b : Bool) → Blind {p = p} (set_started b)
  unfolding set_started
  Blind-set_started b = record { at = λ w r. (r, refl) }

  pub Blind-stop : Blind {p = p} stop
  unfolding stop
  Blind-stop =
      Blind-choose (λ w. not w.chat_started) (log error _) (set_started false) (λ w r. refl)
        (Blind-log error _) (Blind-set_started false)

  pub Blind-start : Blind {p = p} start
  unfolding start
  Blind-start =
      Blind-choose (λ w. w.chat_started) (log error _) (set_started true >> work) (λ w r. refl)
        (Blind-log error _) (Blind-then (set_started true) work (Blind-set_started true) Blind-work)
