-- ===== src/Chat/Rounds.antt =====
-- The rounds of `work`, and `start` and `stop`.
use mathlib.Core.List.{append-nil, append_assoc}
use kuro_net.Prelude.{
  ℕ, zero, suc, ◌+◌, ◌*◌, ◌≡◌, refl, true, List, [], ◌∷◌, ◌++◌, nat_eq, arith, length,
}
use kuro_net.Text.{Bytes}
use kuro_net.Platform.{Platform}
use kuro_net.Exec.{ok}
use kuro_net.World.{World, Client, Pending, accepting, requesting, reading, writing, waiting}
use kuro_net.Chat.{work, read_each}

-- A read for each approved client, in the order of the map.
unfoldable pub reads_of : List (Bytes × Client) → List Pending
reads_of [] = []
reads_of ((id, client) ∷ entries) = reading id client ∷ reads_of entries

-- The reads among the pending operations.
pub count_reads : List Pending → ℕ
count_reads [] = 0
count_reads (reading id client ∷ ops) = suc (count_reads ops)
count_reads (accepting s ∷ ops) = count_reads ops
count_reads (requesting s ∷ ops) = count_reads ops
count_reads (writing c m ∷ ops) = count_reads ops
count_reads (waiting ∷ ops) = count_reads ops

count_reads-append :
    (xs ys : List Pending) → count_reads (xs ++ ys) ≡ count_reads xs + count_reads ys
unfolding count_reads
count_reads-append [] ys = omega arith
count_reads-append (reading id client ∷ xs) ys = omega (arith, count_reads-append xs ys)
count_reads-append (accepting s ∷ xs) ys = count_reads-append xs ys
count_reads-append (requesting s ∷ xs) ys = count_reads-append xs ys
count_reads-append (writing c m ∷ xs) ys = count_reads-append xs ys
count_reads-append (waiting ∷ xs) ys = count_reads-append xs ys

count_reads-reads_of :
    (entries : List (Bytes × Client)) → count_reads (reads_of entries) ≡ length entries
unfolding count_reads reads_of
count_reads-reads_of [] = refl
count_reads-reads_of ((id, client) ∷ entries) = omega (arith, count_reads-reads_of entries)

count_reads_timer : count_reads (waiting ∷ []) ≡ 0
unfolding count_reads
count_reads_timer = refl

module _ {p : Platform} where
  pub read_each_lem :
      (entries : List (Bytes × Client)) (w : World p) (ops : List Pending)
      → read_each entries (record w { pending = ops })
        ≡ (ok tt, record w { pending = ops ++ reads_of entries })
  unfolding read_each reads_of
  read_each_lem [] w ops = rw (append-nil ops)
  read_each_lem ((id, client) ∷ entries) w ops =
      rw (read_each_lem entries w (ops ++ reading id client ∷ []), append_assoc)

  -- A round of a chat that runs starts one read for each approved client and then the timer; it changes
  -- nothing else.
  pub work_lem :
      (w : World p)
      → w.chat_started ≡ true
      → work w
        ≡ (ok tt, record w { pending = w.pending ++ (reads_of w.manager.clients ++ waiting ∷ []) })
  unfolding work
  work_lem w started =
      simp started (rw (read_each_lem w.manager.clients w w.pending, append_assoc) (simp started))

  -- So many rounds in a row, with no read that completes between them.
  pub rounds : ℕ → World p → World p
  rounds zero w = w
  rounds (suc n) w = rounds n ((work w).1)

  -- Reads pile up: once the chat runs, each round that comes before any read completes adds a read for each approved
  -- client to those that are pending already.
  pub rounds-reads :
      (n : ℕ) (w : World p)
      → w.chat_started ≡ true
      → count_reads (rounds n w).pending ≡ count_reads w.pending + n * length w.manager.clients
  unfolding rounds
  rounds-reads zero w started = omega arith
  rounds-reads (suc n) w started =
      let added = reads_of w.manager.clients ++ waiting ∷ [] in
      rw (rounds, work_lem w started)
        (omega (
          arith,
          rounds-reads n (record w { pending = w.pending ++ added }) started,
          count_reads-append w.pending added,
          count_reads-append (reads_of w.manager.clients) (waiting ∷ []),
          count_reads-reads_of w.manager.clients,
          count_reads_timer,
        ))
