-- ===== src/Startup/Kept.antt =====
-- What holds of the process of main.cpp as long as `main` has still to wait for the thread that ends it.
use bserver.Base.{
  ℕ, suc, ◌+◌, ◌≤◌, ◌≡◌, inl, inr, refl, Bool-cases, Bool, true, false, List, [], ◌∷◌, Option, none,
  some, length, arith,
}
use bserver.Startup.{Event, run}
use bserver.Startup.Ordered.{count, precedes}
use bserver.Startup.{Signal}
use bserver.Startup.Ending.{
  Exit, exits, receive, handle_signal, pool_moves, has, is_add, is_exit_thread, is_run_pool,
  is_join_exit, ExitThread, absent, asleep, ending, Process, returns, perform, main_goes, exit_goes,
  Move, main_moves, exit_moves, signal, registers, move, live, step, moves,
}

-- How many steps the thread has left after a signal, at most.
unfoldable pub steps_left : ExitThread → ℕ
steps_left absent = 6
steps_left asleep = 6
steps_left (ending es status) = suc (length es)

unfoldable pub started : ExitThread → ℕ
started absent = 0
started asleep = 1
started (ending es status) = 1

abbrev pub exit_status : ExitThread → ℕ
exit_status (ending es status) = status
exit_status _ = 1

abbrev pub own : ExitThread → List Event
own (ending es status) = es
own _ = []

-- A process whose `main` has still to wait for the thread that ends it, by what decides that.
pub record Inv (todo : List Event) (exit_thread : ExitThread) (pool_runs : Bool)
    (ended : Option Exit) : Type 0 where
  pub awaits : 1 ≤ count is_join_exit todo
  pub once : count is_exit_thread todo + started exit_thread ≡ 1
  pub none_own : count is_exit_thread (own exit_thread) ≡ 0
  pub no_pool : count is_run_pool (own exit_thread) ≡ 0
  pub fails_then : exit_status exit_thread ≡ 1
  pub few : steps_left exit_thread ≤ 6
  pub failed : (status : ℕ) → ended ≡ some (exits status) → status ≡ 1
  pub first :
      started exit_thread ≡ 0
      → (precedes is_exit_thread is_run_pool todo ≡ true) × (pool_runs ≡ false)

abbrev pub Kept : Process → Type 0
Kept p = Inv p.todo p.exit_thread p.pool_runs p.ended

perform-Inv :
    (e : Event) (es : List Event) (p : Process)
    → returns e p ≡ true
    → Inv (e ∷ es) p.exit_thread p.pool_runs p.ended
    → Kept (perform e (record p { todo = es }))
unfolding perform returns count precedes started steps_left
perform-Inv e es p can v =
    let awaits = v.awaits in
    let once = v.once in
    let first = v.first in
    elim (Bool-cases (is_exit_thread e)) [
      | inl x ↦ rw x record {
        awaits = ground arith;
        once = ground arith;
        none_own = refl;
        no_pool = refl;
        fails_then = refl;
        few = omega arith;
        failed = v.failed;
        first = λ i. absurd (ground arith);
      }
      | inr x ↦ rw x record {
        awaits = ground arith;
        once = ground arith;
        none_own = v.none_own;
        no_pool = v.no_pool;
        fails_then = v.fails_then;
        few = v.few;
        failed = v.failed;
        first = λ i. let g = first i in ground arith;
      }
    ]

main-Inv :
    (es : List Event) (p : Process)
    → Inv es p.exit_thread p.pool_runs p.ended
    → Kept p
    → Kept (main_goes es p)
unfolding main_goes count
main-Inv [] p v k = absurd (ground (arith, v.awaits))
main-Inv (x ∷ es) p v k = elim (Bool-cases (returns x p)) [
  | inl can ↦ rw can (perform-Inv x es p can v)
  | inr waits ↦ rw waits k
]

own-Inv :
    (e : Event) (es : List Event) (status : ℕ) (p : Process)
    → Inv p.todo (ending (e ∷ es) status) p.pool_runs p.ended
    → Kept (perform e (record p { exit_thread = ending es status }))
unfolding perform count started steps_left
own-Inv e es status p v =
    let own = v.none_own in
    elim (Bool-cases (is_exit_thread e)) [
      | inl x ↦ absurd (ground arith)
      | inr x ↦
          let own_rest : count is_exit_thread es ≡ 0 = ground arith in
          rw x record {
            awaits = v.awaits;
            once = v.once;
            none_own = own_rest;
            no_pool = let own_pool = v.no_pool in ground arith;
            fails_then = v.fails_then;
            few = let few = v.few in omega arith;
            failed = v.failed;
            first = λ i. absurd (ground arith);
          }
    ]

exit-Inv :
    (x : ExitThread) (p : Process)
    → Inv p.todo x p.pool_runs p.ended
    → Kept p
    → Kept (exit_goes x p)
unfolding exit_goes run count started steps_left is_exit_thread is_run_pool
exit-Inv absent p v k = k
exit-Inv asleep p v k = elim (Bool-cases p.stop) [
  | inl stop ↦ rw stop record {
    awaits = v.awaits;
    once = v.once;
    none_own = refl;
    no_pool = refl;
    fails_then = refl;
    few = omega arith;
    failed = v.failed;
    first = v.first;
  }
  | inr runs ↦ rw runs k
]
exit-Inv (ending [] status) p v k = record {
  awaits = k.awaits;
  once = k.once;
  none_own = k.none_own;
  no_pool = k.no_pool;
  fails_then = k.fails_then;
  few = k.few;
  failed = λ s e. let one = v.fails_then in ground arith;
  first = k.first;
}
exit-Inv (ending (e ∷ es) status) p v k = own-Inv e es status p v

receive-Inv : (s : Signal) (p : Process) → Kept p → Kept (receive s p)
unfolding receive
receive-Inv s p k = elim (Bool-cases (has (is_add s) p.done)) [
  | inl known ↦ rw known k
  | inr unknown ↦ elim (Bool-cases (p.terminates s)) [
    | inl fatal ↦
        rw (unknown, fatal)
          record {
            awaits = k.awaits;
            once = k.once;
            none_own = k.none_own;
            no_pool = k.no_pool;
            fails_then = k.fails_then;
            few = k.few;
            failed = λ status e. absurd (cc);
            first = k.first;
          }
    | inr ignored ↦ rw (unknown, ignored) k
  ]
]

pub move-Inv : (m : Move) (p : Process) → Kept p → Kept (move m p)
unfolding move handle_signal
move-Inv main_moves p k = main-Inv p.todo p k k
move-Inv exit_moves p k = exit-Inv p.exit_thread p k k
move-Inv (signal s) p k = receive-Inv s p k
move-Inv pool_moves p k = k
move-Inv (registers m) p k = k

live-Inv : (o : Option Exit) (p q : Process) → Kept p → Kept q → Kept (live o p q)
unfolding live
live-Inv none p q k l = l
live-Inv (some e) p q k l = k

pub step-Inv : (m : Move) (p : Process) → Kept p → Kept (step m p)
unfolding step
step-Inv m p k = live-Inv p.ended p (move m p) k (move-Inv m p k)

pub moves-Inv : (ms : List Move) (p : Process) → Kept p → Kept (moves ms p)
unfolding moves
moves-Inv [] p k = k
moves-Inv (m ∷ ms) p k = moves-Inv ms (step m p) (step-Inv m p k)
