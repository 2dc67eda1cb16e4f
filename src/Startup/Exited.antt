-- ===== src/Startup/Exited.antt =====
-- With what status the process of main.cpp ends, in every interleaving of `main` with the thread that
-- waits for the end.
use bserver.Base.{
  ℕ, ◌≤◌, ◌≡◌, ◌⊎◌, inl, inr, refl, ◌∙◌, Bool, ap, ◌++◌, true, false, List, ◌∷◌, Bytes, some, arith,
}
use bserver.Config.Action.{Configwrap}
use bserver.Peers.Client.{ClientMap}
use bserver.Startup.{Signal, Event, Machine, Run, main}
use bserver.Startup.Ordered.{count, precedes}
use bserver.Startup.Ending.{
  Exit, exits, killed, pool_moves, has, is_add, is_wait, is_run_pool, Process, process, Move,
  signal, moves,
}
use bserver.Startup.Alone.{moves-Alone, Refused-Alone}
use bserver.Startup.Armed.{
  Armed, moves-Armed, main-armed, add_armed, wait_armed, Unknown, moves-Unknown,
}
use bserver.Startup.Kept.{started, steps_left, Kept, moves-Inv}
use bserver.Startup.Signalled.{turns, signal_ends}
use bserver.Startup.Refused.{is_print, Serves, main-cases}

Serves-Kept :
    (r : Run) (m : ClientMap) (terminates : Signal → Bool)
    → Serves r.0
    → Kept (process r m terminates)
unfolding process started steps_left count
Serves-Kept r m terminates s = record {
  awaits = s.awaits;
  once = let once = s.once in omega arith;
  none_own = refl;
  no_pool = refl;
  fails_then = refl;
  few = omega arith;
  failed = λ status e. absurd (cc);
  first = λ i. (s.first, refl);
}

-- A process that has ended, ended in one of three ways.
abbrev pub Ended : Exit → Process → Type 0
Ended x p =
    (x ≡ exits 1)
    ⊎ ((x ≡ exits 0) × (1 ≤ count is_print p.done))
    ⊎ ((s : Signal) × (x ≡ killed s) × (has (is_add s) p.done ≡ false))

module _ (out : Machine) (argv : List Bytes) (c : Configwrap) (m : ClientMap)
    (terminates : Signal → Bool) (ms : List Move) where
  unkilled_start : Unknown (process (main out argv c) m terminates)
  unfolding process
  unkilled_start s e = absurd (cc)

  killed-Unknown : Unknown (moves ms (process (main out argv c) m terminates))
  killed-Unknown = moves-Unknown ms _ unkilled_start

  exits-ended :
      (status : ℕ)
      → (moves ms (process (main out argv c) m terminates)).ended ≡ some (exits status)
      → Ended (exits status) (moves ms (process (main out argv c) m terminates))
  unfolding process
  exits-ended status e = elim (main-cases out argv c) [
    | inl s ↦
        inl (
          ap exits
            ((moves-Inv ms _ (Serves-Kept (main out argv c) m terminates s)).failed status e))
    | inr r ↦
        let (returned, printed) =
          (moves-Alone ms _ (Refused-Alone (main out argv c) m terminates r)).over status e in
        elim r.reason [
          | inl one ↦ inl (ap exits (returned ∙ one))
          | inr (nothing, some_printed) ↦
              inr (inl (ap exits (returned ∙ nothing), rw printed some_printed))
        ]
  ]

-- However `main`, the thread that waits for the end, the pool and signals interleave: a process that ends,
-- ends with status 1; or with 0, and then an exception was printed; or by the default action of a signal
-- that `main` had not added yet.
pub moves-ended_status :
    (out : Machine) (argv : List Bytes) (c : Configwrap) (m : ClientMap)
    (terminates : Signal → Bool) (ms : List Move) (x : Exit)
    → (moves ms (process (main out argv c) m terminates)).ended ≡ some x
    → (x ≡ exits 1)
      ⊎ ((x ≡ exits 0)
          × (1 ≤ count is_print (moves ms (process (main out argv c) m terminates)).done))
      ⊎ ((s : Signal) × (x ≡ killed s)
          × (has (is_add s) (moves ms (process (main out argv c) m terminates)).done ≡ false))
moves-ended_status out argv c m terminates ms (exits status) e =
    exits-ended out argv c m terminates ms status e
moves-ended_status out argv c m terminates ms (killed s) e =
    inr (inr (s, refl, killed-Unknown out argv c m terminates ms s e))

start-Armed :
    (q : Event → Bool) (r : Run) (m : ClientMap) (terminates : Signal → Bool)
    → precedes q is_run_pool r.0 ≡ true
    → Armed q r.0 (process r m terminates)
unfolding process Armed
start-Armed q r m terminates e = inr (e, refl)

runs-Armed :
    (q : Event → Bool) (p : Process) → p.pool_runs ≡ true → Armed q p.todo p → has q p.done ≡ true
unfolding Armed
runs-Armed q p r (inl d) = d
runs-Armed q p r (inr (f, n)) = absurd (cc)

-- Once the pool runs, any of the signals ends the process with status 1: as soon as the pool has turned to
-- it and the thread that waits for the end has taken six steps after that, whatever happens in between.
pub signal-ended :
    (out : Machine) (argv : List Bytes) (c : Configwrap) (m : ClientMap)
    (terminates : Signal → Bool) (before between later : List Move) (s : Signal)
    → (moves before (process (main out argv c) m terminates)).pool_runs ≡ true
    → 6 ≤ turns later
    → (moves
        (signal s ∷ (between ++ (pool_moves ∷ later)))
        (moves before (process (main out argv c) m terminates))).ended
      ≡ some (exits 1)
unfolding process
signal-ended out argv c m terminates before between later s runs enough =
    elim (main-cases out argv c) [
      | inl serves ↦
          let start = Serves-Kept (main out argv c) m terminates serves in
          let known : (t : Signal)
              → has (is_add t) (moves before (process (main out argv c) m terminates)).done ≡ true =
            λ t. runs-Armed (is_add t) _ runs (
              moves-Armed (is_add t) before _ start (
                start-Armed (is_add t) _ m terminates
                  (main-armed (is_add t) (add_armed t) out argv c))) in
          signal_ends s between later _
            record {
              kept = moves-Inv before _ start;
              runs = runs;
              added = known;
              waited = runs-Armed is_wait _ runs (
                  moves-Armed is_wait before _ start (
                    start-Armed is_wait _ m terminates (main-armed is_wait wait_armed out argv c)));
              unkilled = λ t e.
                  let unknown = killed-Unknown out argv c m terminates before t e in
                  let k = known t in absurd (cc);
            }
            enough
      | inr r ↦
          let stays =
            (moves-Alone before _ (Refused-Alone (main out argv c) m terminates r)).not_running in
          absurd (cc)
    ]
