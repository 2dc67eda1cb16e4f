-- ===== src/Threads.antt =====
-- src/task_base.cpp and include/task_base.h with all worker threads at once, as include/io_service_provide.h
-- starts and stops them: how they share the mutex and the condition of the queue. The steps of threads
-- interleave in every order. What the threads have in common is their number in each phase.
pub mod Woken
pub mod Ended
pub mod Joined
mod Tests
use bserver.Base.{
  ℕ, suc, ◌+◌, ◌-◌, ◌≡◌, Bool, true, false, not, ◌&&◌, ◌||◌, List, [], ◌∷◌, Option, none, some, ltb,
  ◌==◌, if◌then◌else◌,
}
use bserver.Message.{MessageFormat}
use bserver.Tasks.{
  TaskBase, Task, Popped, popped, waits, stopped, task_base, push, set_stop, try_pop, wait_and_pop,
}

-- The phases of `work`: at the head of the loop; before `try_pop`; in `wait_and_pop`, before the test of
-- its loop; behind that test and still with the mutex; in `condition_.wait`; in `do_work`; and out of the
-- loop. `notices` are the pushes whose `notify_one` is still to come, `thrown` the exceptions of `do_work`.
pub record Threads : Type 0 where
  pub queue : TaskBase
  pub notices : ℕ
  pub heading : ℕ
  pub trying : ℕ
  pub testing : ℕ
  pub settling : ℕ
  pub waiting : ℕ
  pub serving : ℕ
  pub ended : ℕ
  pub thrown : ℕ
  pub interrupted : Bool

-- What a thread may do next.
pub data Move : Type 0 where
  pushes : MessageFormat → Move
  notifies : Move
  heads : Move
  tries : Move
  tests : Move
  settles : Move
  wakes : Move
  returns : Move
  throws : Move
  stops : Move
  notifies_all : Move
  interrupts : Move

-- `n` threads after `create_thread`.
unfoldable pub threads : ℕ → Threads
unfolding task_base
threads n = record {
  queue = task_base;
  notices = 0;
  heading = n;
  trying = 0;
  testing = 0;
  settling = 0;
  waiting = 0;
  serving = 0;
  ended = 0;
  thrown = 0;
  interrupted = false;
}

abbrev pub when : Bool → Threads → Option Threads
when true s = some s
when false s = none

-- Whether no thread holds the mutex of the queue between two steps.
abbrev pub unlocked : Threads → Bool
unlocked s = s.settling == 0

-- `push`, up to its `unlock`.
unfoldable pub push_locked : MessageFormat → Threads → Option Threads
push_locked m s = when (unlocked s) (record s { queue = push m s.queue; notices = suc s.notices })

-- The `notify_one` of a `push`.
unfoldable pub notify_one : Threads → Option Threads
notify_one s = when (ltb 0 s.notices) (
    if ltb 0 s.waiting
    then record s { notices = s.notices - 1; waiting = s.waiting - 1; testing = suc s.testing }
    else record s { notices = s.notices - 1 })

-- The head of the loop: the test of `stop_` and the interruption point.
unfoldable pub head_loop : Threads → Option Threads
head_loop s = when (ltb 0 s.heading) (
    if s.queue.stop || s.interrupted
    then record s { heading = s.heading - 1; ended = suc s.ended }
    else record s { heading = s.heading - 1; trying = suc s.trying })

-- `try_pop`, and the way from there.
unfoldable pub try_queue : (limit : ℕ) → Threads → Option Threads
try_queue limit s = when (ltb 0 s.trying && unlocked s) (elim (try_pop limit s.queue) [
  | some (t, q) ↦ record s { trying = s.trying - 1; serving = suc s.serving; queue = q }
  | none ↦ record s { trying = s.trying - 1; testing = suc s.testing }
])

-- What the test of the loop of `wait_and_pop` leads to.
unfoldable pub tested : Popped → Threads → Threads
tested (popped t q) s = record s { testing = s.testing - 1; serving = suc s.serving; queue = q }
tested waits s = record s { testing = s.testing - 1; settling = suc s.settling }
tested stopped s = record s { testing = s.testing - 1; ended = suc s.ended }

unfoldable pub test_queue : Threads → Option Threads
unfolding tested
test_queue s = when (ltb 0 s.testing && unlocked s) (tested (wait_and_pop s.queue) s)

-- The wait releases the mutex; a thread that was interrupted leaves it with an exception.
unfoldable pub settle : Threads → Option Threads
settle s = when (ltb 0 s.settling) (
    if s.interrupted
    then record s { settling = s.settling - 1; ended = suc s.ended }
    else record s { settling = s.settling - 1; waiting = suc s.waiting })

-- A wait may end by itself.
unfoldable pub wake : Threads → Option Threads
wake s = when (ltb 0 s.waiting) (record s { waiting = s.waiting - 1; testing = suc s.testing })

unfoldable pub return_task : Threads → Option Threads
return_task s =
    when (ltb 0 s.serving) (record s { serving = s.serving - 1; heading = suc s.heading })

-- The handlers of exceptions stand behind the loop.
unfoldable pub throw_task : Threads → Option Threads
throw_task s =
    when (ltb 0 s.serving)
      (record s { serving = s.serving - 1; ended = suc s.ended; thrown = suc s.thrown })

unfoldable pub notify_all : Threads → Threads
notify_all s = record s { waiting = 0; testing = s.testing + s.waiting }

-- `interrupt_all`: the waits end with an exception.
unfoldable pub interrupt_all : Threads → Threads
interrupt_all s = record s { waiting = 0; ended = s.ended + s.waiting; interrupted = true }

-- A step of some thread, where it can be taken.
unfoldable pub step : (limit : ℕ) → Move → Threads → Option Threads
unfolding push_locked notify_one head_loop try_queue test_queue settle wake return_task throw_task
    notify_all interrupt_all
step limit (pushes m) s = push_locked m s
step limit notifies s = notify_one s
step limit heads s = head_loop s
step limit tries s = try_queue limit s
step limit tests s = test_queue s
step limit settles s = settle s
step limit wakes s = wake s
step limit returns s = return_task s
step limit throws s = throw_task s
step limit stops s = some (record s { queue = set_stop s.queue })
step limit notifies_all s = some (notify_all s)
step limit interrupts s = some (interrupt_all s)

-- What `n` threads can reach, while other threads push and stop them.
pub data Reach (limit n : ℕ) : Threads → Type 0 where
  here : Reach limit n (threads n)
  next : {s t : Threads} (m : Move) → Reach limit n s → step limit m s ≡ some t → Reach limit n t

-- `io_service_provide::stop` as far as it concerns the workers, up to `join_all`.
unfoldable pub stop_workers : Threads → Threads
unfolding notify_all interrupt_all
stop_workers s = interrupt_all (notify_all (record s { queue = set_stop s.queue }))
