-- ===== src/Chat/Restart.antt =====
-- A chat that is stopped and started again before its timer has run.
use kuro_net.Prelude.{
  ℕ, ◌+◌, ◌≡◌, refl, true, false, not, if_false, List, [], ◌∷◌, ◌++◌, arith, ap, ◌∙◌,
}
use kuro_net.Text.{Bytes}
use kuro_net.Platform.{Platform}
use kuro_net.Exec.{Outcome, ok}
use kuro_net.World.{World, Client, Pending, accepting, requesting, reading, writing, waiting}
use kuro_net.Chat.{work, start, stop}
use kuro_net.Chat.Rounds.{reads_of, work_lem}

pub timer_weight : Pending → ℕ
timer_weight (accepting s) = 0
timer_weight (requesting s) = 0
timer_weight (reading id c) = 0
timer_weight (writing c text) = 0
timer_weight waiting = 1

-- The timers among the operations that are started.
pub count_timers : List Pending → ℕ
unfolding timer_weight
count_timers [] = 0
count_timers (op ∷ ops) = timer_weight op + count_timers ops

count_timers-append :
    (xs ys : List Pending) → count_timers (xs ++ ys) ≡ count_timers xs + count_timers ys
unfolding count_timers
count_timers-append [] ys = omega arith
count_timers-append (op ∷ xs) ys = omega (arith, count_timers-append xs ys)

-- The timer behind the reads of a round.
count_timers-round :
    (entries : List (Bytes × Client)) → count_timers (reads_of entries ++ waiting ∷ []) ≡ 1
unfolding count_timers reads_of
count_timers-round [] = refl
count_timers-round ((id, c) ∷ entries) = omega (arith, count_timers-round entries)

count_timers-waiting : (ops : List Pending) → count_timers (waiting ∷ ops) ≡ 1 + count_timers ops
unfolding count_timers
count_timers-waiting ops = refl

module _ {p : Platform} where
  work-timers :
      (w : World p)
      → w.chat_started ≡ true
      → count_timers (work w).1.pending ≡ count_timers w.pending + 1
  work-timers w started = rw (work_lem w started) (
      omega (
        arith,
        count_timers-append w.pending (reads_of w.manager.clients ++ waiting ∷ []),
        count_timers-round w.manager.clients,
      ))

  -- A timer that completes is replaced.
  work-replaces :
      (before behind : List Pending) (w : World p)
      → w.chat_started ≡ true
      → w.pending ≡ before ++ waiting ∷ behind
      → count_timers (work (record w { pending = before ++ behind })).1.pending
        ≡ count_timers w.pending
  work-replaces before behind w started found =
      work-timers (record w { pending = before ++ behind }) started
      ∙ omega (
        arith,
        ap count_timers found,
        count_timers-append before behind,
        count_timers-append before (waiting ∷ behind),
        count_timers-waiting behind,
      )

  start_lem :
      (w : World p)
      → w.chat_started ≡ false
      → (start w).1 ≡ (work (record w { chat_started = true })).1
  unfolding start
  start_lem w idle =
      ap (λ r. r.1) (if_false w.chat_started _ (work (record w { chat_started = true })) idle)

  stop_lem : (w : World p) → w.chat_started ≡ true → (stop w).1 ≡ record w { chat_started = false }
  unfolding stop
  stop_lem w runs =
      ap (λ (r : Outcome (Unit {0}) × World p). r.1)
        (if_false (not w.chat_started) _ (ok tt, record w { chat_started = false }) (ap not runs))

  work-started : (w : World p) → w.chat_started ≡ true → (work w).1.chat_started ≡ true
  work-started w started = rw (work_lem w started) started

  start-timers :
      (w : World p)
      → w.chat_started ≡ false
      → (count_timers (start w).1.pending ≡ count_timers w.pending + 1)
        × ((start w).1.chat_started ≡ true)
  start-timers w idle = rw (start_lem w idle) (
    work-timers (record w { chat_started = true }) refl,
    work-started (record w { chat_started = true }) refl,
  )

  -- A chat that is started, stopped, and started again before its first timer completes has two timers
  -- more than before, where one start gives one. No timer goes by itself: as long as the chat runs,
  -- each that completes is replaced, so that every round is made twice from then on.
  pub restart_twice :
      (w : World p)
      → w.chat_started ≡ false
      → (count_timers (start (stop (start w).1).1).1.pending ≡ count_timers w.pending + 2)
        × ((before behind : List Pending) (u : World p)
            → u.chat_started ≡ true
            → u.pending ≡ before ++ waiting ∷ behind
            → count_timers (work (record u { pending = before ++ behind })).1.pending
              ≡ count_timers u.pending)
  restart_twice w idle =
      let first = start-timers w idle in
      let stopped = stop_lem (start w).1 first.1 in
      let again = start-timers (stop (start w).1).1 (ap (λ v. v.chat_started) stopped) in
      (
        omega (arith, first.0, again.0, ap (λ (v : World p). count_timers v.pending) stopped),
        work-replaces,
      )
