-- ===== src/Tasks/Order.antt =====
-- The queue of src/task_base.cpp hands out the messages in the order in which they were pushed.
use bserver.Base.{ℕ, ◌≡◌, refl, List, [], ◌∷◌, ◌++◌, map, append_assoc, arith, some, Bytes}
use mathlib.Core.List.{map-append}
use bserver.Message.{MessageFormat}
use bserver.Tasks.{
  TaskBase, Task, popped, task_base, push, set_stop, try_pop, wait_and_pop, task_of,
}

-- The queue with the messages that were pushed, and what the workers took, oldest first.
pub record History : Type 0 where
  pub queue : TaskBase
  pub pushed : List MessageFormat
  pub taken : List Task

abbrev pub new_history : History
unfolding task_base
new_history = record { queue = task_base; pushed = []; taken = [] }

-- Any thread may push, pop in either way, or stop the queue.
pub data Step (limit : ℕ) (h : History) : History → Type 0 where
  pushes :
      (m : MessageFormat)
      → Step limit h (record h { queue = push m h.queue; pushed = h.pushed ++ (m ∷ []) })
  tries :
      (t : Task) (q : TaskBase)
      → try_pop limit h.queue ≡ some (t, q)
      → Step limit h (record h { queue = q; taken = h.taken ++ (t ∷ []) })
  awaits :
      (t : Task) (q : TaskBase)
      → wait_and_pop h.queue ≡ popped t q
      → Step limit h (record h { queue = q; taken = h.taken ++ (t ∷ []) })
  stops : Step limit h (record h { queue = set_stop h.queue })

pub data Reach (limit : ℕ) (h : History) : History → Type 0 where
  here : Reach limit h h
  next : {a b : History} → Reach limit h a → Step limit a b → Reach limit h b

-- A task without its header, which an overloaded queue rewrites.
abbrev pub content : Task → Bytes × Bytes
content t = (t.bytes, t.id)

abbrev pub contents_of : MessageFormat → Bytes × Bytes
contents_of m = content (task_of m)

abbrev Inv : History → Type 0
Inv h = map content h.taken ++ map contents_of h.queue.deque ≡ map contents_of h.pushed

-- A pop takes the first message of the queue.
record Takes (q : TaskBase) (t : Task) (q' : TaskBase) : Type 0 where
  pub first : map contents_of q.deque ≡ content t ∷ map contents_of q'.deque

try_pop-Takes :
    (limit : ℕ) (q : TaskBase) (t : Task) (q' : TaskBase)
    → try_pop limit q ≡ some (t, q')
    → Takes q t q'
unfolding try_pop
try_pop-Takes limit q t q' e = ground arith

wait_and_pop-Takes :
    (q : TaskBase) (t : Task) (q' : TaskBase) → wait_and_pop q ≡ popped t q' → Takes q t q'
unfolding wait_and_pop
wait_and_pop-Takes q t q' e = ground arith

take-Inv :
    (h : History) (t : Task) (q : TaskBase)
    → Takes h.queue t q
    → Inv h
    → Inv (record h { queue = q; taken = h.taken ++ (t ∷ []) })
take-Inv h t q k v =
    rw (map-append content h.taken (t ∷ []), append_assoc (map content h.taken) (content t ∷ []))
      (rw k.first at v)

push-Inv :
    (h : History) (m : MessageFormat)
    → Inv h
    → Inv (record h { queue = push m h.queue; pushed = h.pushed ++ (m ∷ []) })
unfolding push
push-Inv h m v = ground (
  arith,
  map-append contents_of h.pushed (m ∷ []),
  map-append contents_of h.queue.deque (m ∷ []),
  append_assoc (map content h.taken) (map contents_of h.queue.deque) (contents_of m ∷ []),
)

Step-Inv : {limit : ℕ} {a b : History} → Step limit a b → Inv a → Inv b
Step-Inv {a} (pushes m) v = push-Inv a m v
Step-Inv {limit} {a} (tries t q e) v = take-Inv a t q (try_pop-Takes limit a.queue t q e) v
Step-Inv {a} (awaits t q e) v = take-Inv a t q (wait_and_pop-Takes a.queue t q e) v
Step-Inv stops v = unfold set_stop in v

-- However pushes, pops and `stop` interleave, the bodies and ids of the tasks taken so far, followed by
-- those in the queue, are those that were pushed, in order: none is lost, doubled or overtaken.
pub tasks_in_order :
    (limit : ℕ) (h : History)
    → Reach limit new_history h
    → map content h.taken ++ map contents_of h.queue.deque ≡ map contents_of h.pushed
unfolding task_base
tasks_in_order limit h here = refl
tasks_in_order limit h (next r st) = Step-Inv st (tasks_in_order limit _ r)
