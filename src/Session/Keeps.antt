-- ===== src/Session/Keeps.antt =====
-- Invariants of the manager through a chain of steps: one rule for each way to build a chain.
use mathlib.Core.Path.{subst}
use kuro_net.Prelude.{
  ◌++◌, ◌≡◌, refl, sym, ℕ, not, Bool, true, false, if◌then◌else◌, Bool-cases, inl, inr,
}
use kuro_net.Text.{Bytes, codes}
use kuro_net.Logger.{Level, warning}
use kuro_net.Platform.{Platform, ErrorCode}
use kuro_net.Exec.{Exec, Outcome, ok, throw, undefined, after, ◌>>=◌, ◌>>◌, pure, gets, lift}
use kuro_net.World.{
  World, Manager, Pending, View, view, on_manager, log, on_socket, start_operation,
}
use kuro_net.Prelude.Map.{erase, emplace}
use kuro_net.Prelude.{List, [], ◌∷◌, list_eq, nat_eq}
use kuro_net.World.{Client}
use kuro_net.Random.{random_generate_str}
use kuro_net.Random.Shape.{random_generate_str_lem}
use kuro_net.Session.{
  sweep, drop_dead, check, has_error, write, is_client_really_dead, is_open, lost_peer, set_manager,
  close_socket, probe, read_verdict, with_manager,
}

-- The ways in which the operations change the maps.
abbrev pub forget_waiting : Bytes → View → View
forget_waiting id = on_manager λ m. record m { wait_clients = erase id m.wait_clients }

abbrev pub forget_client : Bytes → View → View
forget_client id = on_manager λ m. record m { clients = erase id m.clients }

abbrev pub put_waiting : Client → View → View
put_waiting c = on_manager λ m. record m { wait_clients = emplace c.id c m.wait_clients }

abbrev pub put_client : Bytes → Client → View → View
put_client id c = on_manager λ m. record m { clients = emplace id c m.clients }

abbrev pub put_token : Bytes → View → View
put_token token = on_manager λ m. record m { active_tokens = m.active_tokens ++ token ∷ [] }

module _ {p : Platform} where
  abbrev pub without_waiting : Bytes → World p → World p
  without_waiting id = with_manager λ m. record m { wait_clients = erase id m.wait_clients }

  abbrev pub without_client : Bytes → World p → World p
  without_client id = with_manager λ m. record m { clients = erase id m.clients }

  abbrev pub with_client : Bytes → Client → World p → World p
  with_client id c = with_manager λ m. record m { clients = emplace id c m.clients }

-- `m` keeps `P` of what `look` sees of the process, whether it returns or throws.
pub record Keeps {p : Platform} {S A : Type 0} (look : World p → S) (P : S → Type 0)
    (m : Exec (World p) A) : Type 0 where
  pub at : (w : World p) → P (look w) → P (look (m w).1)

-- `P` stands a call of the log, and whatever leaves the log, the view and the terminal alone.
pub record Stands {p : Platform} {S : Type 0} (look : World p → S) (P : S → Type 0) : Type 0 where
  pub logs :
      (level : Level) (text : Bytes) (w : World p) → P (look w) → P (look (log level text w).1)
  pub rests :
      (w u : World p)
      → u.logger ≡ w.logger
      → view u ≡ view w
      → u.terminal ≡ w.terminal
      → P (look w)
      → P (look u)

instance pub view-Stands : {p : Platform} {P : View → Type 0} → Stands {p = p} view P
view-Stands {P = P} = record {
  logs = λ level text w h. h;
  rests = λ w u logged same still h. subst P (sym same) h;
}

module _ {p : Platform} {S : Type 0} {look : World p → S} {P : S → Type 0}
    ⦃stands : Stands look P⦄ where
  pub Keeps-pure : {A : Type 0} (a : A) → Keeps {p = p} look P (pure a)
  Keeps-pure a = record { at = λ w h. h }

  pub Keeps-log : (level : Level) (text : Bytes) → Keeps {p = p} look P (log level text)
  Keeps-log level text = record { at = stands.logs level text }

  pub Keeps-on_socket :
      (call : p.Sock → ErrorCode × p.Sock) (socket : ℕ)
      → Keeps look P (on_socket {p = p} call socket)
  Keeps-on_socket call socket = record {
    at = λ w h. stands.rests w (on_socket call socket w).1 refl refl refl h;
  }

  pub Keeps-start_operation :
      (op : Pending)
      → ((w : World p) → P (look w) → P (look (start_operation op w).1))
      → Keeps {p = p} look P (start_operation op)
  Keeps-start_operation op put = record { at = put }

  pub Keeps-lift : {A : Type 0} (r : Outcome A) → Keeps {p = p} look P (lift r)
  Keeps-lift r = record { at = λ w h. h }

  pub Keeps-gets : {A : Type 0} (f : World p → A) → Keeps {p = p} look P (gets f)
  Keeps-gets f = record { at = λ w h. h }

  pub Keeps-random_generate_str : (n : ℕ) → Keeps {p = p} look P (random_generate_str n)
  Keeps-random_generate_str n = record {
    at = λ w h. rw (random_generate_str_lem n w) (stands.rests w _ refl refl refl h);
  }

  pub Keeps-check : (ec : ErrorCode) → Keeps {p = p} look P (check ec)
  Keeps-check ec = record {
    at = λ w h. elim (Bool-cases (has_error ec)) [ inl e ↦ rw e h | inr e ↦ rw e h ];
  }

  pub Keeps-set_manager :
      (f : Manager → Manager)
      → ((w : World p) → P (look w) → P (look (with_manager f w)))
      → Keeps {p = p} look P (set_manager f)
  Keeps-set_manager f keep = record { at = keep }

  pub Keeps-if :
      {A : Type 0} (b : Bool) (m n : Exec (World p) A)
      → Keeps look P m
      → Keeps look P n
      → Keeps look P (if b then m else n)
  Keeps-if true m n km kn = km
  Keeps-if false m n km kn = kn

  after-keeps :
      {A B : Type 0} (r : Outcome A) (v : World p) (f : A → Exec (World p) B)
      → P (look v)
      → ((a : A) → Keeps look P (f a))
      → P (look (after (r, v) f).1)
  after-keeps (ok a) v f h kf = (kf a).at v h
  after-keeps (throw e) v f h kf = h
  after-keeps undefined v f h kf = h

  pub Keeps-bind :
      {A B : Type 0} (m : Exec (World p) A) (f : A → Exec (World p) B)
      → Keeps look P m
      → ((a : A) → Keeps look P (f a))
      → Keeps look P (m >>= f)
  Keeps-bind m f km kf = record { at = λ w h. after-keeps ((m w).0) ((m w).1) f (km.at w h) kf }

  pub Keeps-then :
      {B : Type 0} (m : Exec (World p) (Unit {0})) (k : Exec (World p) B)
      → Keeps look P m
      → Keeps look P k
      → Keeps look P (m >> k)
  Keeps-then m k km kk = Keeps-bind m (λ _. k) km (λ _. kk)

  pub Keeps-write : (socket : ℕ) (text : Bytes) → Keeps {p = p} look P (write socket text)
  unfolding write
  Keeps-write socket text =
      Keeps-bind (on_socket (p.write text) socket) check (Keeps-on_socket (p.write text) socket)
        Keeps-check

  Keeps-probe : (socket : ℕ) → Keeps {p = p} look P (probe socket)
  unfolding probe
  Keeps-probe socket =
      Keeps-bind (on_socket p.set_non_blocking socket) _ (Keeps-on_socket p.set_non_blocking socket)
        λ blocking. Keeps-then (check blocking) _ (Keeps-check blocking) (
          Keeps-bind (on_socket p.read_some socket) _ (Keeps-on_socket p.read_some socket)
            λ ec. Keeps-pure (read_verdict ec))

  -- A test that reads the process picks the next part.
  pub Keeps-choose :
      {A : Type 0} (b : World p → Bool) (m n : Exec (World p) A)
      → Keeps look P m
      → Keeps look P n
      → Keeps look P (λ w. if b w then m w else n w)
  Keeps-choose b m n km kn = record {
    at = λ w h. elim (Bool-cases (b w)) [ inl e ↦ rw e (km.at w h) | inr e ↦ rw e (kn.at w h) ];
  }

  -- The next part depends on what is read from the process.
  pub Keeps-reads :
      {A B : Type 0} (f : World p → B) (m : B → Exec (World p) A)
      → ((b : B) → Keeps look P (m b))
      → Keeps look P (λ w. m (f w) w)
  Keeps-reads f m km = record { at = λ w h. (km (f w)).at w h }

  pub Keeps-is_client_really_dead :
      (socket : ℕ) → Keeps {p = p} look P (is_client_really_dead socket)
  unfolding is_client_really_dead
  Keeps-is_client_really_dead socket =
      Keeps-choose (λ w. not (is_open socket w)) (pure true) _ (Keeps-pure true)
        (Keeps-choose (λ w. lost_peer ((p.remote_endpoint (w.sockets socket)).0)) (pure true)
          (probe socket) (Keeps-pure true) (Keeps-probe socket))

  pub Keeps-close_socket : (id : Bytes) (socket : ℕ) → Keeps {p = p} look P (close_socket id socket)
  unfolding close_socket
  Keeps-close_socket id socket =
      Keeps-bind (on_socket p.shutdown socket) _ (Keeps-on_socket p.shutdown socket) λ _.
        Keeps-bind (on_socket p.close socket) _ (Keeps-on_socket p.close socket) λ ec.
          Keeps-if (has_error ec) _ (pure tt)
            (Keeps-log warning
              (codes "Error closing socket for client " ++ (id ++ (codes ": " ++ p.message ec))))
            (Keeps-pure tt)

  pub drop_dead-rule :
      (id : Bytes) (socket : ℕ)
      → ((w : World p) → P (look w) → P (look (without_waiting id w)))
      → Keeps {p = p} look P (drop_dead id socket)
  unfolding drop_dead
  drop_dead-rule id socket keep =
      Keeps-then (log warning (codes "Removing dead client: " ++ id)) _ (Keeps-log warning _) (
        Keeps-bind (on_socket p.shutdown socket) _ (Keeps-on_socket p.shutdown socket) λ _.
          Keeps-bind (on_socket p.close socket) _ (Keeps-on_socket p.close socket)
            λ _. Keeps-set_manager _ keep)

  pub sweep-rule :
      ((id : Bytes) (w : World p) → P (look w) → P (look (without_waiting id w)))
      → (entries : List (Bytes × Client)) → Keeps {p = p} look P (sweep entries)
  unfolding sweep
  sweep-rule keep [] = Keeps-pure tt
  sweep-rule keep ((id, c) ∷ entries) =
      Keeps-bind (is_client_really_dead c.socket) _ (Keeps-is_client_really_dead c.socket) λ dead.
        Keeps-then (if dead then drop_dead id c.socket else pure tt) _
          (Keeps-if dead (drop_dead id c.socket) (pure tt) (drop_dead-rule id c.socket (keep id))
            (Keeps-pure tt))
          (sweep-rule keep entries)
