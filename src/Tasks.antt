-- ===== src/Tasks.antt =====
-- include/task_base.h, src/task_base.cpp and the queue half of src/session_task.cpp: the queue of
-- messages between the readers and the worker threads. `mutex_` is held through `push`, `try_pop` and
-- each turn of `wait_and_pop`, so these are atomic. `task_queue_max` is the configured bound.
pub mod Order
pub mod Overload
mod Tests
use bserver.Base.{
  ℕ, Bool, true, false, List, [], ◌∷◌, ◌++◌, Bytes, Option, none, some, length, ltb, if◌then◌else◌,
}
use bserver.Message.{Head, MessageFormat, meet_head, payload}

pub record TaskBase : Type 0 where
  pub deque : List MessageFormat
  pub stop : Bool

-- What a pop gives the worker.
pub record Task : Type 0 where
  pub bytes : Bytes
  pub head : Head
  pub id : Bytes

-- `wait_and_pop` returns a task, blocks on the condition, or throws "stop thread!".
pub data Popped : Type 0 where
  popped : Task → TaskBase → Popped
  waits : Popped
  stopped : Popped

unfoldable pub task_base : TaskBase
task_base = record { deque = []; stop = false }

unfoldable pub push : MessageFormat → TaskBase → TaskBase
push m q = record q { deque = q.deque ++ (m ∷ []) }

-- The member function `stop()`.
unfoldable pub set_stop : TaskBase → TaskBase
set_stop q = record q { stop = true }

-- `session_task::full_queue_event`.
abbrev pub busy_cmd : ℕ
busy_cmd = 1010

unfoldable pub full_queue_event : Head → Head
full_queue_event h = record h { cmd = busy_cmd }

unfoldable pub task_of : MessageFormat → Task
unfolding payload meet_head
task_of m = record { bytes = payload m; head = meet_head m; id = m.remote_id }

unfoldable pub try_pop_from : ℕ → List MessageFormat → Bool → Option (Task × TaskBase)
unfolding task_of full_queue_event
try_pop_from limit [] stop = none
try_pop_from limit (m ∷ ms) stop =
    let t = task_of m in
    let h = if ltb limit (length (m ∷ ms)) then full_queue_event t.head else t.head in
    some (record t { head = h }, record { deque = ms; stop = stop })

unfoldable pub try_pop : ℕ → TaskBase → Option (Task × TaskBase)
unfolding try_pop_from
try_pop limit q = try_pop_from limit q.deque q.stop

-- One turn of `wait_and_pop`: the flag is looked at first when the wait ends.
unfoldable pub wait_and_pop_from : List MessageFormat → Bool → Popped
unfolding task_of
wait_and_pop_from ms true = stopped
wait_and_pop_from [] false = waits
wait_and_pop_from (m ∷ ms) false = popped (task_of m) (record { deque = ms; stop = false })

unfoldable pub wait_and_pop : TaskBase → Popped
unfolding wait_and_pop_from
wait_and_pop q = wait_and_pop_from q.deque q.stop

-- What other threads do between the two pops of a round of `work`.
abbrev pub Between : Type 0
Between = TaskBase → TaskBase

-- A round of `work`, from the test of `stop_` to the task for `do_work`.
unfoldable pub work_round : ℕ → Between → TaskBase → Popped
unfolding try_pop wait_and_pop
work_round limit between q =
    if q.stop
    then stopped
    else elim (try_pop limit q) [ some (t, q') ↦ popped t q' | none ↦ wait_and_pop (between q) ]
