-- ===== src/Threads/Woken.antt =====
-- No worker of src/task_base.cpp sleeps over a message.
use bserver.Base.{
  ℕ, ◌+◌, ◌≤◌, ◌<◌, ◌≡◌, true, false, [], ◌∷◌, Option, some, length, length-append, arith,
}
use bserver.Message.{MessageFormat}
use bserver.Tasks.{task_base, push, set_stop, try_pop, wait_and_pop}
use bserver.Threads.{
  Threads, Move, threads, push_locked, notify_one, head_loop, try_queue, test_queue, settle, wake,
  return_task, throw_task, notify_all, interrupt_all, step, pushes, notifies, heads, tries, tests,
  settles, wakes, returns, throws, stops, notifies_all, interrupts, Reach, here, next,
}

pub record Inv (n : ℕ) (s : Threads) : Type 0 where
  pub total : s.heading + s.trying + s.testing + s.settling + s.waiting + s.serving + s.ended ≡ n
  pub one : s.settling ≤ 1
  pub settled : 0 < s.settling → length s.queue.deque ≡ 0
  pub woken :
      s.queue.stop ≡ false
      → s.interrupted ≡ false
      → 0 < s.waiting
      → length s.queue.deque ≤ s.notices + s.heading + s.trying + s.testing
  pub excepted : s.queue.stop ≡ false → s.interrupted ≡ false → s.ended ≡ s.thrown
  pub awake : s.interrupted ≡ true → s.waiting ≡ 0

push_locked-Inv :
    (n : ℕ) (m : MessageFormat) (s t : Threads) → push_locked m s ≡ some t → Inv n s → Inv n t
unfolding push_locked push
push_locked-Inv n m s t e v = ground (arith, length-append s.queue.deque (m ∷ []))

notify_one-Inv : (n : ℕ) (s t : Threads) → notify_one s ≡ some t → Inv n s → Inv n t
unfolding notify_one
notify_one-Inv n s t e v = ground arith

head_loop-Inv : (n : ℕ) (s t : Threads) → head_loop s ≡ some t → Inv n s → Inv n t
unfolding head_loop
head_loop-Inv n s t e v = ground arith

try_queue-Inv : (limit n : ℕ) (s t : Threads) → try_queue limit s ≡ some t → Inv n s → Inv n t
unfolding try_queue try_pop
try_queue-Inv limit n s t e v = ground arith

test_queue-Inv : (n : ℕ) (s t : Threads) → test_queue s ≡ some t → Inv n s → Inv n t
unfolding test_queue wait_and_pop
test_queue-Inv n s t e v = ground arith

settle-Inv : (n : ℕ) (s t : Threads) → settle s ≡ some t → Inv n s → Inv n t
unfolding settle
settle-Inv n s t e v = ground arith

wake-Inv : (n : ℕ) (s t : Threads) → wake s ≡ some t → Inv n s → Inv n t
unfolding wake
wake-Inv n s t e v = ground arith

return_task-Inv : (n : ℕ) (s t : Threads) → return_task s ≡ some t → Inv n s → Inv n t
unfolding return_task
return_task-Inv n s t e v = ground arith

throw_task-Inv : (n : ℕ) (s t : Threads) → throw_task s ≡ some t → Inv n s → Inv n t
unfolding throw_task
throw_task-Inv n s t e v = ground arith

notify_all-Inv : (n : ℕ) (s : Threads) → Inv n s → Inv n (notify_all s)
unfolding notify_all
notify_all-Inv n s v = ground arith

interrupt_all-Inv : (n : ℕ) (s : Threads) → Inv n s → Inv n (interrupt_all s)
unfolding interrupt_all
interrupt_all-Inv n s v = ground arith

set_stop-Inv : (n : ℕ) (s : Threads) → Inv n s → Inv n (record s { queue = set_stop s.queue })
unfolding set_stop
set_stop-Inv n s v = ground arith

moved-Inv : (n : ℕ) (s t : Threads) → ◌≡◌ {A = Option Threads} (some s) (some t) → Inv n s → Inv n t
moved-Inv n s t e v = let same : s ≡ t = cc in rw same at v

step-Inv : (limit n : ℕ) (m : Move) (s t : Threads) → step limit m s ≡ some t → Inv n s → Inv n t
unfolding step
step-Inv limit n (pushes m) s t e v = push_locked-Inv n m s t e v
step-Inv limit n notifies s t e v = notify_one-Inv n s t e v
step-Inv limit n heads s t e v = head_loop-Inv n s t e v
step-Inv limit n tries s t e v = try_queue-Inv limit n s t e v
step-Inv limit n tests s t e v = test_queue-Inv n s t e v
step-Inv limit n settles s t e v = settle-Inv n s t e v
step-Inv limit n wakes s t e v = wake-Inv n s t e v
step-Inv limit n returns s t e v = return_task-Inv n s t e v
step-Inv limit n throws s t e v = throw_task-Inv n s t e v
step-Inv limit n stops s t e v = moved-Inv n _ t e (set_stop-Inv n s v)
step-Inv limit n notifies_all s t e v = moved-Inv n _ t e (notify_all-Inv n s v)
step-Inv limit n interrupts s t e v = moved-Inv n _ t e (interrupt_all-Inv n s v)

threads-Inv : (n : ℕ) → Inv n (threads n)
unfolding threads task_base
threads-Inv n = ground arith

pub Reach-Inv : {limit n : ℕ} {s : Threads} → Reach limit n s → Inv n s
Reach-Inv {n} here = threads-Inv n
Reach-Inv {limit} {n} (next {s} {t} m r e) = step-Inv limit n m s t e (Reach-Inv r)

-- However the threads interleave, as long as nobody stops them: each of the `n` threads is in one phase;
-- the threads that have ended are those whose task threw; and while a worker sleeps in its wait, there
-- are at most as many messages in the queue as there are pushes that have still to notify and workers
-- that are awake on their way to it. So where all of these are through, a sleeping worker means that the
-- queue is empty.
pub Reach-woken :
    (limit n : ℕ) (s : Threads)
    → Reach limit n s
    → s.queue.stop ≡ false
    → s.interrupted ≡ false
    → 0 < s.waiting
    → (s.heading + s.trying + s.testing + s.settling + s.waiting + s.serving + s.ended ≡ n)
      × (s.ended ≡ s.thrown)
      × (length s.queue.deque ≤ s.notices + s.heading + s.trying + s.testing)
Reach-woken limit n s r a b c = let v = Reach-Inv r in (v.total, v.excepted a b, v.woken a b c)
