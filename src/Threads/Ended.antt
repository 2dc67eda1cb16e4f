-- ===== src/Threads/Ended.antt =====
-- An exception of a task ends its worker in src/task_base.cpp, and nothing starts another.
use bserver.Base.{
  ℕ, ◌≡◌, ap, ◌∙◌, inl, inr, Option-cases, false, List, [], ◌∷◌, ◌++◌, none, some, append-nil,
  append_assoc, arith,
}
use bserver.Message.{MessageFormat}
use bserver.Tasks.{push, set_stop}
use bserver.Threads.{
  Threads, Move, push_locked, notify_one, head_loop, try_queue, test_queue, settle, wake,
  return_task, throw_task, notify_all, interrupt_all, step, pushes, notifies, heads, tries, tests,
  settles, wakes, returns, throws, stops, notifies_all, interrupts, Reach, next,
}
use bserver.Threads.Woken.{Reach-Inv}

-- No thread is left that takes messages.
pub record IsOver (s : Threads) : Type 0 where
  pub no_heading : s.heading ≡ 0
  pub no_trying : s.trying ≡ 0
  pub no_testing : s.testing ≡ 0
  pub no_settling : s.settling ≡ 0
  pub no_waiting : s.waiting ≡ 0
  pub no_serving : s.serving ≡ 0

-- A step of a process whose workers are all over: at most a message is added.
step-IsOver :
    (limit : ℕ) (m : Move) (s t : Threads)
    → step limit m s ≡ some t
    → IsOver s
    → IsOver t × (ms : List MessageFormat) × (t.queue.deque ≡ s.queue.deque ++ ms)
unfolding step push_locked notify_one head_loop try_queue test_queue settle wake return_task
    throw_task notify_all interrupt_all push set_stop
step-IsOver limit (pushes m) s t e o = (ground arith, m ∷ [], ground arith)
step-IsOver limit notifies s t e o = (ground arith, [], ground (arith, append-nil s.queue.deque))
step-IsOver limit heads s t e o = absurd (ground arith)
step-IsOver limit tries s t e o = absurd (ground arith)
step-IsOver limit tests s t e o = absurd (ground arith)
step-IsOver limit settles s t e o = absurd (ground arith)
step-IsOver limit wakes s t e o = absurd (ground arith)
step-IsOver limit returns s t e o = absurd (ground arith)
step-IsOver limit throws s t e o = absurd (ground arith)
step-IsOver limit stops s t e o = (ground arith, [], ground (arith, append-nil s.queue.deque))
step-IsOver limit notifies_all s t e o =
    (ground arith, [], ground (arith, append-nil s.queue.deque))
step-IsOver limit interrupts s t e o = (ground arith, [], ground (arith, append-nil s.queue.deque))

-- Steps in their order; those that cannot be taken are left out.
unfoldable pub run : (limit : ℕ) → List Move → Threads → Threads
run limit [] s = s
run limit (m ∷ ms) s = elim (step limit m s) [ none ↦ run limit ms s | some t ↦ run limit ms t ]

pub run-Reach :
    (limit n : ℕ) (ms : List Move) (s : Threads) → Reach limit n s → Reach limit n (run limit ms s)
unfolding run
run-Reach limit n [] s r = r
run-Reach limit n (m ∷ ms) s r = elim (Option-cases (step limit m s)) [
  | inl stuck ↦ rw (run, stuck) (run-Reach limit n ms s r)
  | inr (t, moved) ↦ rw (run, moved) (run-Reach limit n ms t (next m r moved))
]

run-IsOver :
    (limit : ℕ) (ms : List Move) (s : Threads)
    → IsOver s
    → (l : List MessageFormat) × ((run limit ms s).queue.deque ≡ s.queue.deque ++ l)
unfolding run
run-IsOver limit [] s o = ([], ground (arith, append-nil s.queue.deque))
run-IsOver limit (m ∷ ms) s o = elim (Option-cases (step limit m s)) [
  | inl stuck ↦ rw (run, stuck) (run-IsOver limit ms s o)
  | inr (t, moved) ↦
      let (over, l, e) = step-IsOver limit m s t moved o in
      let (k, f) = run-IsOver limit ms t over in
      (l ++ k, rw (run, moved) (f ∙ ap (λ d. d ++ k) e ∙ append_assoc s.queue.deque l k))
]

-- Once as many tasks have thrown as there were workers, and nobody has stopped them, no message is taken
-- any more, whatever the threads do: the queue keeps what it holds, in its order, and only grows.
pub Reach-ended :
    (limit n : ℕ) (s : Threads) (ms : List Move)
    → Reach limit n s
    → s.queue.stop ≡ false
    → s.interrupted ≡ false
    → s.thrown ≡ n
    → (l : List MessageFormat) × ((run limit ms s).queue.deque ≡ s.queue.deque ++ l)
Reach-ended limit n s ms r a b e =
    let v = Reach-Inv r in
    let ended = v.excepted a b in let total = v.total in run-IsOver limit ms s (ground arith)
