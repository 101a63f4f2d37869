-- ===== src/Programs/Runs.antt =====
-- The example programs over every behaviour of the other threads.
use mathlib.Core.Path.{subst}
use kuro_net.Prelude.{ℕ, ◌≡◌, refl, sym, ◌∙◌, inl, inr, [], arith, Bool-cases}
use kuro_net.Logger.{Level, Logger, debug, info, error}
use kuro_net.Logger
use kuro_net.Text.{Bytes}
use kuro_net.Platform.{Platform}
use kuro_net.Exec.{Exec, Outcome, ok, throw, undefined, after, ◌>>◌}
use kuro_net.World.{World, View, view, log}
use kuro_net.Session.Keeps.{view-Stands}
use kuro_net.Session.{has_error}
use kuro_net.Session.Invariant.{IsValidView, IsValid-Closed}
use kuro_net.Registry.{registry_init}
use kuro_net.Registry.Agents.{registry_init_lem, full_registry}
use kuro_net.Server.{construct, start}
use kuro_net.Server.Keeps.{start_lem}
use kuro_net.Chat
use kuro_net.Chat.Keeps.{Keeps-start}
use kuro_net.Process.Loop.{Reach}
use kuro_net.Process.Loop.Accepts.{count_accepts, Reach-count, start-count, Holds-Closed}
use kuro_net.Process.Loop.Owners.{count_operations, count_clients}
use kuro_net.Process.Loop.Owners.Changes.{IsOwned, IsOwned-Closed, accepting-IsOwned}
use kuro_net.Process.Loop.Owners.Runs.{loop-IsOwned}
use kuro_net.Process.Loop.Valid.{Reach-IsValid}
use kuro_net.Programs.{
  initial, set_level, meanwhile, tcp_server_example, commands_example, chat_example,
}

-- No socket has two owners, and the maps of the session are well formed.
abbrev pub IsSound : View → Type 0
IsSound v = IsOwned v × IsValidView v

-- What the other threads do is a run of the event loop, of the terminal and of the chat.
abbrev pub IsRun : {p : Platform} → (World p → World p) → Type 0
IsRun {p} f = (w : World p) → Reach w (f w)

abbrev Stands : ℕ → View → Type 0
Stands n v = IsSound v × (count_accepts v.pending ≡ n)

-- Sound in any case, and so many accepts where it returned.
abbrev pub Serves : {p : Platform} → ℕ → Outcome (Unit {0}) × World p → Type 0
Serves n r = IsSound (view r.1) × (r.0 ≡ ok tt → count_accepts r.1.pending ≡ n)

record Goes {p : Platform} (m n : ℕ) (action : Exec (World p) (Unit {0})) : Type 0 where
  at : (w : World p) → Stands m (view w) → Serves n (action w)

module _ {p : Platform} where
  after-Serves :
      (m n : ℕ) (r : Outcome (Unit {0})) (v : World p) (k : Exec (World p) (Unit {0}))
      → Serves m (r, v)
      → Goes m n k
      → Serves n (after (r, v) (λ _. k))
  after-Serves m n (ok _) v k h goes = goes.at v (h.0, h.1 refl)
  after-Serves m n (throw e) v k h goes = (h.0, λ q. cc)
  after-Serves m n undefined v k h goes = (h.0, λ q. cc)

  Goes-then :
      {l m n : ℕ} (a k : Exec (World p) (Unit {0})) → Goes l m a → Goes m n k → Goes l n (a >> k)
  Goes-then {m = m} {n = n} a k first next = record {
    at = λ w h. after-Serves m n ((a w).0) ((a w).1) k (first.at w h) next;
  }

  Goes-meanwhile : (n : ℕ) (f : World p → World p) → IsRun f → Goes n n (meanwhile f)
  Goes-meanwhile n f run = record {
    at = λ w h.
        ((loop-IsOwned (run w) h.0.0, Reach-IsValid (run w) h.0.1), λ q. Reach-count (run w) ∙ h.1);
  }

  Goes-construct : (port : ℕ) → Goes {p = p} 0 0 (construct port)
  unfolding construct
  Goes-construct port = record {
    at = λ w h. elim (Bool-cases (has_error ((p.open_acceptor port).0))) [
      | inl e ↦ rw e (h.0, λ q. cc)
      | inr e ↦ rw e (h.0, λ q. h.1)
    ];
  }

  Goes-start : Goes {p = p} 0 1 start
  Goes-start = record {
    at = λ w h. elim (start_lem w) [
      | inl (done, e) ↦ (
        (subst IsOwned (sym e) (accepting-IsOwned (view w) h.0.0), subst IsValidView (sym e) h.0.1),
        λ q. omega (arith, start-count w q, h.1),
      )
      | inr (failed, e) ↦
          ((subst IsOwned (sym e) h.0.0, subst IsValidView (sym e) h.0.1), λ q. absurd (failed q))
    ];
  }

  Goes-log : (n : ℕ) (level : Level) (text : Bytes) → Goes {p = p} n n (log level text)
  Goes-log n level text = record { at = λ w h. (h.0, λ q. h.1) }

  Goes-chat : (n : ℕ) → Goes {p = p} n n Chat.start
  Goes-chat n = record {
    at = λ w h. (
      ((Keeps-start IsOwned-Closed).at w h.0.0, (Keeps-start IsValid-Closed).at w h.0.1),
      λ q. (Keeps-start (Holds-Closed n)).at w h.1,
    );
  }

  -- The server is constructed and started.
  Goes-served :
      (before : World p → World p) (rest : Exec (World p) (Unit {0}))
      → IsRun before
      → Goes 1 1 rest
      → Goes 0 1 (construct 12345 >> (meanwhile before >> (start >> rest)))
  Goes-served before rest runs goes = Goes-then (construct 12345) _ (Goes-construct 12345) (
      Goes-then (meanwhile before) _ (Goes-meanwhile 0 before runs)
        (Goes-then start rest Goes-start goes))

  -- The process with the registry of `Session`, behind the first two steps of a `main`.
  abbrev pub begun : p.Acceptor → p.Tty → Logger → World p
  begun acceptor tty lg = record (initial acceptor tty) {
    manager = record {
      clients = [];
      wait_clients = [];
      active_tokens = [];
      registry = full_registry;
    };
    logger = lg;
  }

  pub begins :
      (level : Level) (acceptor : p.Acceptor) (tty : p.Tty) (rest : Exec (World p) (Unit {0}))
      → (lg : Logger) × ((set_level level >> (registry_init >> rest)) (initial acceptor tty)
          ≡ rest (begun acceptor tty lg))
  unfolding set_level
  begins level acceptor tty rest =
      let (lg, e) =
        registry_init_lem (begun acceptor tty (Logger.set_level level Logger.initial)) in
      (lg, rw e refl)

begun-Stands :
    (p : Platform) (acceptor : p.Acceptor) (tty : p.Tty) (lg : Logger)
    → Stands 0 (view (begun {p = p} acceptor tty lg))
unfolding count_operations count_clients count_accepts
begun-Stands p acceptor tty lg = (
  (
    record { single = λ s. omega arith; given = λ s le. omega arith },
    record {
      clients_unique = tt;
      waiting_unique = tt;
      clients_keyed = tt;
      waiting_keyed = tt;
      clients_trusted = tt;
    },
  ),
  refl,
)

module _ {p : Platform} where
  begins-Serves :
      (level : Level) (acceptor : p.Acceptor) (tty : p.Tty) (rest : Exec (World p) (Unit {0}))
      → Goes 0 1 rest
      → Serves 1 ((set_level level >> (registry_init >> rest)) (initial acceptor tty))
  begins-Serves level acceptor tty rest goes =
      let (lg, e) = begins level acceptor tty rest in
      subst (Serves 1) (sym e) (goes.at (begun acceptor tty lg) (begun-Stands p acceptor tty lg))

  -- The three programs, where the event loop, the terminal and the chat do anything between the calls of
  -- `main`, the terminal also before the server is constructed, and whether `main` gets to its joins or
  -- an exception ends it: no socket has two owners, the maps of the session are well formed, and if `main`
  -- gets to its joins, then one accept is started.
  pub examples-Serves :
      (first before between behind : World p → World p) (acceptor : p.Acceptor) (tty : p.Tty)
      → IsRun first
      → IsRun before
      → IsRun between
      → IsRun behind
      → Serves 1 (tcp_server_example before between behind (initial acceptor tty))
        × Serves 1 (commands_example first before behind (initial acceptor tty))
        × Serves 1 (chat_example first before between behind (initial acceptor tty))
  unfolding tcp_server_example commands_example chat_example
  examples-Serves first before between behind acceptor tty runs_first runs_before runs_between
        runs_behind =
      (
        begins-Serves debug acceptor tty _ (
            Goes-served before _ runs_before (
              Goes-then (meanwhile between) _ (Goes-meanwhile 1 between runs_between) (
                Goes-then (log info _) _ (Goes-log 1 info _)
                  (Goes-meanwhile 1 behind runs_behind)))),
        begins-Serves error acceptor tty _ (
            Goes-then (meanwhile first) _ (Goes-meanwhile 0 first runs_first)
              (Goes-served before _ runs_before (Goes-meanwhile 1 behind runs_behind))),
        begins-Serves info acceptor tty _ (
            Goes-then (meanwhile first) _ (Goes-meanwhile 0 first runs_first) (
              Goes-served before _ runs_before (
                Goes-then (meanwhile between) _ (Goes-meanwhile 1 between runs_between)
                  (Goes-then Chat.start _ (Goes-chat 1) (Goes-meanwhile 1 behind runs_behind))))),
      )
