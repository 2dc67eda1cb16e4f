-- ===== src/Threads/Joined.antt =====
-- `join_all` of include/io_service_provide.h comes to an end: the workers of src/task_base.cpp after `stop`,
-- `notifiy_all` and `interrupt_all`.
use native.Mathlib.Decide.{dec_lt}
use bserver.Base.{
  ℕ, ◌+◌, ◌*◌, ◌≤◌, ◌<◌, ◌≡◌, ◌⊎◌, refl, Bool, true, false, inl, inr, some, arith, if◌then◌else◌,
}
use bserver.Tasks.{push, set_stop, try_pop, wait_and_pop}
use bserver.Threads.{
  Threads, Move, when, push_locked, notify_one, head_loop, try_queue, test_queue, settle, wake,
  return_task, throw_task, notify_all, interrupt_all, step, stop_workers, pushes, notifies, heads,
  tries, tests, settles, wakes, returns, throws, stops, notifies_all, interrupts, Reach, next,
}
use bserver.Threads.Woken.{Reach-Inv}

-- The steps of workers.
unfoldable pub is_work : Move → Bool
is_work heads = true
is_work tries = true
is_work tests = true
is_work settles = true
is_work wakes = true
is_work returns = true
is_work throws = true
is_work _ = false

pub record IsStopped (s : Threads) : Type 0 where
  pub stop_set : s.queue.stop ≡ true
  pub interrupted : s.interrupted ≡ true
  pub none_waits : s.waiting ≡ 0

-- How many steps the workers can have left: a bound that falls.
unfoldable pub left : Threads → ℕ
left s = 4 * s.trying + 3 * s.serving + 2 * s.heading + s.testing + s.settling

step-IsStopped :
    (limit : ℕ) (m : Move) (s t : Threads)
    → step limit m s ≡ some t
    → IsStopped s
    → IsStopped t × ((if is_work m then 1 else 0) + left t ≤ left s)
unfolding step push_locked notify_one head_loop try_queue test_queue settle wake return_task
    throw_task notify_all interrupt_all push set_stop is_work left try_pop wait_and_pop
step-IsStopped limit (pushes m) s t e o = ground arith
step-IsStopped limit notifies s t e o = ground arith
step-IsStopped limit heads s t e o = ground arith
step-IsStopped limit tries s t e o = ground arith
step-IsStopped limit tests s t e o = ground arith
step-IsStopped limit settles s t e o = ground arith
step-IsStopped limit wakes s t e o = ground arith
step-IsStopped limit returns s t e o = ground arith
step-IsStopped limit throws s t e o = ground arith
step-IsStopped limit stops s t e o = ground arith
step-IsStopped limit notifies_all s t e o = ground arith
step-IsStopped limit interrupts s t e o = ground arith

can : (b : Bool) (s : Threads) → b ≡ true → (t : Threads) × (when b s ≡ some t)
can true s e = (s, refl)
can false s e = absurd (cc)

-- A worker that is not over can take a step.
some_work :
    (limit : ℕ) (s : Threads)
    → IsStopped s
    → 0 < left s
    → (m : Move) × (is_work m ≡ true) × ((t : Threads) × (step limit m s ≡ some t))
unfolding step head_loop try_queue test_queue settle return_task is_work left
some_work limit s o some_left = elim (dec_lt 0 s.settling) [
  | yes settled ↦ (settles, refl, can _ _ (ground arith))
  | no unsettled ↦ elim (dec_lt 0 s.heading) [
    | yes a ↦ (heads, refl, can _ _ (ground arith))
    | no na ↦ elim (dec_lt 0 s.trying) [
      | yes b ↦ (tries, refl, can _ _ (ground arith))
      | no nb ↦ elim (dec_lt 0 s.testing) [
        | yes c ↦ (tests, refl, can _ _ (ground arith))
        | no nc ↦ (returns, refl, can _ _ (ground arith))
      ]
    ]
  ]
]

-- Steps of any threads, `k` of which are of workers.
pub data Taken (limit : ℕ) (s : Threads) : ℕ → Threads → Type 0 where
  begun : (k : ℕ) → k ≡ 0 → Taken limit s k s
  taken :
      {t u : Threads} (j k : ℕ) (m : Move)
      → Taken limit s j t
      → step limit m t ≡ some u
      → k ≡ (if is_work m then 1 else 0) + j
      → Taken limit s k u

Taken-Reach :
    {limit n : ℕ} {s : Threads} {k : ℕ} {t : Threads}
    → Reach limit n s
    → Taken limit s k t
    → Reach limit n t
Taken-Reach r (begun k e) = r
Taken-Reach r (taken j k m before e f) = next m (Taken-Reach r before) e

Taken-left :
    {limit : ℕ} {s : Threads} {k : ℕ} {t : Threads}
    → IsStopped s
    → Taken limit s k t
    → IsStopped t × (k + left t ≤ left s)
Taken-left o (begun k e) = (o, omega arith)
Taken-left {limit} o (taken {t} {u} j k m before e f) =
    let (stopped, fewer) = Taken-left o before in
    let (still, less) = step-IsStopped limit m t u e stopped in (still, omega arith)

stop_workers-Reach : {limit n : ℕ} {s : Threads} → Reach limit n s → Reach limit n (stop_workers s)
unfolding stop_workers step
stop_workers-Reach r = next interrupts (next notifies_all (next stops r refl) refl) refl

stop_workers-IsStopped : (s : Threads) → IsStopped (stop_workers s)
unfolding stop_workers set_stop notify_all interrupt_all
stop_workers-IsStopped s = record { stop_set = refl; interrupted = refl; none_waits = refl }

-- After `stop`, `notifiy_all` and `interrupt_all` in any state that `n` workers can reach, the workers take
-- at most four times `n` further steps, however they and other threads interleave, and until all of them
-- have ended one of them can take a step. So `join_all` returns, if every task returns or throws.
pub Reach-joined :
    (limit n k : ℕ) (s t : Threads)
    → Reach limit n s
    → Taken limit (stop_workers s) k t
    → (k ≤ 4 * n)
      × ((t.ended ≡ n)
          ⊎ ((m : Move) × (is_work m ≡ true) × ((u : Threads) × (step limit m t ≡ some u))))
unfolding left
Reach-joined limit n k s t r steps =
    let before = stop_workers-Reach r in
    let (stopped, fewer) = Taken-left (stop_workers-IsStopped s) steps in
    let v = Reach-Inv before in
    let w = Reach-Inv (Taken-Reach before steps) in
    let total = v.total in
    let total_after = w.total in
    let none = stopped.none_waits in
    (
      omega arith,
      elim (dec_lt 0 (left t)) [
        | yes more ↦ inr (some_work limit t stopped more)
        | no over ↦ inl (omega arith)
      ],
    )
