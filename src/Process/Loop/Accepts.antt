-- ===== src/Process/Loop/Accepts.antt =====
-- The accepts that are started.
use mathlib.Core.Path.{subst}
use kuro_net.Prelude.{ℕ, ◌+◌, ◌≡◌, refl, sym, ap, ◌∙◌, inl, inr, List, [], ◌∷◌, ◌++◌, arith}
use kuro_net.Platform.{Platform}
use kuro_net.Exec.{ok}
use kuro_net.World.{World, Pending, accepting, requesting, reading, writing, waiting, View, view}
use kuro_net.Session.Keeps.{view-Stands}
use kuro_net.Session.Closed.{Closed, Anyone, viewed, Arrives}
use kuro_net.Server.{start}
use kuro_net.Server.Keeps.{Turns-on_request, on_accept_lem, start_lem}
use kuro_net.Process.{Event, read, written, timed, happens}
use kuro_net.Process.Keeps.{happens-inner}
use kuro_net.Process.Loop.{
  Completes, accepts, requests, reads, writes, waits, Calls-IsInner, without, Step, runs, is_called,
  Reach, here, later,
}

pub accept_weight : Pending → ℕ
accept_weight (accepting s) = 1
accept_weight (requesting s) = 0
accept_weight (reading id c) = 0
accept_weight (writing c text) = 0
accept_weight waiting = 0

unfoldable pub count_accepts : List Pending → ℕ
unfolding accept_weight
count_accepts [] = 0
count_accepts (op ∷ ops) = accept_weight op + count_accepts ops

count_accepts-append :
    (xs ys : List Pending) → count_accepts (xs ++ ys) ≡ count_accepts xs + count_accepts ys
unfolding count_accepts
count_accepts-append [] ys = omega arith
count_accepts-append (op ∷ xs) ys = omega (arith, count_accepts-append xs ys)

count_accepts-one : (op : Pending) → count_accepts (op ∷ []) ≡ accept_weight op
unfolding count_accepts
count_accepts-one op = omega arith

count_accepts-middle :
    (before behind : List Pending) (op : Pending)
    → count_accepts (before ++ op ∷ behind) ≡ count_accepts (before ++ behind) + accept_weight op
unfolding count_accepts
count_accepts-middle before behind op =
    omega (arith, count_accepts-append before (op ∷ behind), count_accepts-append before behind)

-- As many accepts are started.
abbrev pub Holds : ℕ → View → Type 0
Holds n v = count_accepts v.pending ≡ n

put-Holds :
    (n : ℕ) (op : Pending) (v : View)
    → accept_weight op ≡ 0
    → Holds n v
    → count_accepts (v.pending ++ op ∷ []) ≡ n
put-Holds n op v none_more h =
    omega (arith, count_accepts-append v.pending (op ∷ []), count_accepts-one op)

pub Holds-Closed : {p : Platform} (n : ℕ) → Closed {p = p} Anyone view (Holds n)
unfolding accept_weight
Holds-Closed n = viewed record {
  forgets_waiting = λ id v h. h;
  forgets_client = λ id v h. h;
  puts_token = λ token v h. h;
  admits = λ id token c v allowed active stands h. h;
  reads = λ id c v. put-Holds n (reading id c) v refl;
  writes = λ c text v. put-Holds n (writing c text) v refl;
  waits = λ v. put-Holds n waiting v refl;
}

Holds-Arrives : {automatic : Type 0} (n socket : ℕ) → Arrives socket automatic (Holds n) (Holds n)
Holds-Arrives n socket = record {
  leaves = λ v h. h;
  joins_waiting = λ c v same h. h;
  joins = λ c v auto same free h. h;
}

plus_zero : (m n : ℕ) → m ≡ n → m ≡ n + 0
plus_zero m n e = omega arith

module _ {p : Platform} where
  on_accept-count :
      (socket n : ℕ) (w : World p)
      → count_accepts w.pending ≡ n
      → count_accepts ((w.pending ++ requesting socket ∷ []) ++ accepting w.next_socket ∷ [])
        ≡ n + 1
  unfolding accept_weight
  on_accept-count socket n w h = omega (
    arith,
    count_accepts-append (w.pending ++ requesting socket ∷ []) (accepting w.next_socket ∷ []),
    count_accepts-append w.pending (requesting socket ∷ []),
    count_accepts-one (requesting socket),
    count_accepts-one (accepting w.next_socket),
  )

  -- A completion takes the operation away, and its handler puts an accept back if it was one.
  Completes-count :
      {op : Pending} {e : Event} (n : ℕ) (w : World p)
      → Completes op e
      → Holds n (view w)
      → Holds (n + accept_weight op) (view (happens e w))
  unfolding happens accept_weight
  Completes-count n w (accepts socket ec) h =
      subst (Holds (n + 1)) (sym ((on_accept_lem ec socket w).1)) (on_accept-count socket n w h)
  Completes-count n w (requests socket ec buffer k) h =
      plus_zero _ n ((Turns-on_request socket ec buffer k (Holds-Arrives n socket)).at w h)
  Completes-count n w (reads id c ec buffer) h =
      plus_zero _ n (happens-inner (Holds-Closed n) (read ec id c buffer) w tt h)
  Completes-count n w (writes c text ec) h =
      plus_zero _ n (happens-inner (Holds-Closed n) (written ec c) w tt h)
  Completes-count n w waits h = plus_zero _ n (happens-inner (Holds-Closed n) timed w tt h)

  Step-count : {u v : World p} → Step u v → count_accepts v.pending ≡ count_accepts u.pending
  Step-count {u} {v} (runs before behind {op} {e} found completes same) =
      let left =
        Completes-count (count_accepts (before ++ behind)) (without before behind u) completes
          refl in
      ap (λ s. count_accepts s.pending) same
      ∙ left
      ∙ sym (ap count_accepts found ∙ count_accepts-middle before behind op)
  Step-count {u} {v} (is_called calls same) =
      ap (λ s. count_accepts s.pending) same
      ∙ happens-inner (Holds-Closed (count_accepts u.pending)) _ u (Calls-IsInner calls) refl

  pub Reach-count : {w u : World p} → Reach w u → count_accepts u.pending ≡ count_accepts w.pending
  Reach-count here = refl
  Reach-count (later r s) = Step-count s ∙ Reach-count r

  -- A started server has one accept more.
  pub start-count :
      (w : World p)
      → (start w).0 ≡ ok tt
      → count_accepts (start w).1.pending ≡ count_accepts w.pending + 1
  unfolding accept_weight
  start-count w started = elim (start_lem w) [
    | inl (done, e) ↦
        ap (λ v. count_accepts v.pending) e
        ∙ omega (
          arith,
          count_accepts-append w.pending (accepting w.next_socket ∷ []),
          count_accepts-one (accepting w.next_socket),
        )
    | inr (failed, e) ↦ absurd (failed started)
  ]

  -- Once the server is started, there is one accept more than before, and so it stays: however often one
  -- completes, with whatever error, whatever else happens, and also behind a stop of the server. The
  -- event loop therefore never runs out of work.
  pub Reach-accepts :
      (w u : World p)
      → (start w).0 ≡ ok tt
      → Reach (start w).1 u
      → count_accepts u.pending ≡ count_accepts w.pending + 1
  Reach-accepts w u started reach = Reach-count reach ∙ start-count w started
