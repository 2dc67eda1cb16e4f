-- ===== src/Threads/Tests.antt =====
-- Two workers.
use bserver.Base.{◌+◌, ◌*◌, ◌≤◌, ◌≡◌, ◌⊎◌, refl, true, List, [], ◌∷◌, ◌++◌, some, length, arith}
use bserver.Message.{MessageFormat, message_format}
use bserver.Tasks.{task_base, push, try_pop, wait_and_pop}
use bserver.Threads.{
  Threads, Move, threads, push_locked, head_loop, try_queue, test_queue, settle, throw_task, step,
  stop_workers, pushes, notifies, heads, tries, tests, settles, throws, Reach, here,
}
use bserver.Threads.Woken.{Reach-woken}
use bserver.Threads.Ended.{run, run-Reach, Reach-ended}
use bserver.Threads.Joined.{is_work, begun, Reach-joined}

abbrev message : MessageFormat
message = message_format (record { magic = 1; len = 2; cmd = 3 })

abbrev after : List Move → Threads
after ms = run 10 ms (threads 2)

after-Reach : (ms : List Move) → Reach 10 2 (after ms)
after-Reach ms = run-Reach 10 2 ms (threads 2) here

-- Both workers sleep, and a message has come in whose push has still to notify.
abbrev to_sleep : List Move
to_sleep = heads ∷ tries ∷ tests ∷ settles ∷ heads ∷ tries ∷ tests ∷ settles ∷ pushes message ∷ []

both_sleep : (after to_sleep).waiting ≡ 2
unfolding run step threads task_base push_locked head_loop try_queue test_queue settle try_pop
    wait_and_pop push
both_sleep = refl

Reach-woken_example :
    ((after to_sleep).heading
        + (after to_sleep).trying
        + (after to_sleep).testing
        + (after to_sleep).settling
        + (after to_sleep).waiting
        + (after to_sleep).serving
        + (after to_sleep).ended
      ≡ 2)
    × ((after to_sleep).ended ≡ (after to_sleep).thrown)
    × (length (after to_sleep).queue.deque
        ≤ (after to_sleep).notices
          + (after to_sleep).heading
          + (after to_sleep).trying
          + (after to_sleep).testing)
unfolding run step threads task_base push_locked head_loop try_queue test_queue settle try_pop
    wait_and_pop push
Reach-woken_example =
    Reach-woken 10 2 (after to_sleep) (after-Reach to_sleep) refl refl (omega arith)

-- The tasks of both workers throw; then a third message comes in.
abbrev two_throw : List Move
two_throw = pushes message ∷ pushes message ∷ heads ∷ tries ∷ throws ∷ heads ∷ tries ∷ throws ∷ []

abbrev third : List Move
third = pushes message ∷ notifies ∷ heads ∷ tries ∷ []

Reach-ended_example :
    (l : List MessageFormat) × ((run 10 third (after two_throw)).queue.deque
      ≡ (after two_throw).queue.deque ++ l)
unfolding run step threads task_base push_locked head_loop try_queue throw_task try_pop push
Reach-ended_example =
    Reach-ended 10 2 (after two_throw) third (after-Reach two_throw) refl refl refl

Reach-joined_example :
    (◌≤◌ 0 (4 * 2))
    × (((stop_workers (after to_sleep)).ended ≡ 2)
        ⊎ ((m : Move) × (is_work m ≡ true)
            × ((u : Threads) × (step 10 m (stop_workers (after to_sleep)) ≡ some u))))
Reach-joined_example =
    Reach-joined 10 2 0 (after to_sleep) (stop_workers (after to_sleep)) (after-Reach to_sleep)
      (begun 0 refl)
