-- ===== src/Tasks/Overload.antt =====
-- What src/task_base.cpp does with the header of a task, when the queue is too long, and on `stop`.
use bserver.Base.{
  ℕ, ◌≡◌, refl, ◌⊎◌, inl, inr, ◌↔◌, true, false, List, [], ◌∷◌, arith, none, some, length, ltb,
  List-cases, if◌then◌else◌,
}
use bserver.Message.{Head, MessageFormat, meet_head, payload}
use bserver.Tasks.{
  TaskBase, popped, waits, stopped, set_stop, try_pop, wait_and_pop, task_of, busy_cmd, Between,
  work_round,
}

-- The header of the task that is popped from a queue of `n` messages.
abbrev pub marked : ℕ → ℕ → Head → Head
marked limit n h = if ltb limit n then record h { cmd = busy_cmd } else h

-- `try_pop` returns the first message with its own header, marked as busy exactly when the queue, that
-- message counted, is longer than the limit; it fails exactly on an empty queue.
pub try_pop_lem :
    (limit : ℕ) (q : TaskBase)
    → ((q.deque ≡ []) × (try_pop limit q ≡ none))
      ⊎ ((m : MessageFormat) × (ms : List MessageFormat) × (q.deque ≡ m ∷ ms)
          × (try_pop limit q
              ≡ some (
                record {
                  bytes = payload m;
                  head = marked limit (length q.deque) (meet_head m);
                  id = m.remote_id;
                },
                record q { deque = ms },
              )))
unfolding try_pop
try_pop_lem limit q = elim (List-cases q.deque) [
  | inl e ↦ inl (e, ground arith)
  | inr (m, ms, e) ↦ inr (m, ms, e, ground arith)
]

-- A worker blocks exactly while nothing is queued and nobody has stopped the queue; once it is stopped
-- every wait and every round of `work` ends, whatever is queued.
pub wait_and_pop_stops :
    (q : TaskBase)
    → ((wait_and_pop q ≡ waits) ↔ ((q.deque ≡ []) × (q.stop ≡ false)))
      × ((wait_and_pop q ≡ stopped) ↔ (q.stop ≡ true))
      × ((limit : ℕ) (between : Between) → work_round limit between (set_stop q) ≡ stopped)
unfolding wait_and_pop work_round set_stop
wait_and_pop_stops q = (
  (λ e. ground arith, λ e. ground arith),
  (λ e. ground arith, λ e. ground arith),
  λ limit between. refl,
)

-- A round of `work` that comes back with a task marks it as busy only if `try_pop` found the queue too
-- long: a task that the worker waited for keeps its header, however long the queue is by then.
pub work_round_waited :
    (limit : ℕ) (between : Between) (q : TaskBase) (m : MessageFormat) (ms : List MessageFormat)
    → q.stop ≡ false
    → q.deque ≡ []
    → between q ≡ record q { deque = m ∷ ms }
    → work_round limit between q ≡ popped (task_of m) (record q { deque = ms })
unfolding work_round
work_round_waited limit between q m ms e f g = ground arith
