-- ===== src/Serving.antt =====
-- The way of a request through the server: the reads of a connection in src/session_base.cpp, the queue
-- of src/task_base.cpp and its worker, and `do_work` of src/session_task.cpp.
pub mod Unanswered
mod UnansweredTests
pub mod Waiting
pub mod Rounds
pub mod Answered
pub mod Workers
pub mod Crew
pub mod Worked
pub mod Shared
mod Tests
use bserver.Base.{
  ℕ, zero, suc, Bool, true, false, List, [], ◌∷◌, Bytes, Option, none, some, if◌then◌else◌,
}
use bserver.Message.{Head}
use bserver.Session.{Session, Effect, push_task, on_close}
use bserver.Session.Reads.{feed}
use bserver.Tasks.{TaskBase, Task, Popped, popped, waits, stopped, push, work_round}
use bserver.Peering.{run_effects}
use bserver.Proto.{Env}
use bserver.Logic
use bserver.World.{World, update}

-- The calls of `push` among what the handlers of a session did.
unfoldable pub push_tasks : List Effect → TaskBase → TaskBase
push_tasks [] q = q
push_tasks (push_task m ∷ es) q = push_tasks es (push m q)
push_tasks (on_close ∷ es) q = push_tasks es q

-- Bytes come in for the `client_session` of a handle: all reads that they complete, in `fuel` rounds.
unfoldable pub receive : (fuel h : ℕ) → Bytes → World → World
unfolding push_tasks
receive fuel h bytes w =
    let (s, rest, es) = feed fuel (w.sessions h) bytes in
    record w {
      sessions = update w.sessions h s;
      queue = push_tasks es w.queue;
      clients = run_effects es s w.clients;
    }

-- `session_task::do_work`, given whether `work_process_` is set.
unfoldable pub do_work : Env → Bool → Task → World → World
do_work env process t w = if process then Logic.do_work env t.id t.head t.bytes w else w

-- One turn of the loop of `work`, without a wait; `none` where the worker waits or stops.
unfoldable pub serve_popped : Env → Bool → Popped → World → Option World
unfolding do_work
serve_popped env process (popped t q) w = some (do_work env process t (record w { queue = q }))
serve_popped env process waits w = none
serve_popped env process stopped w = none

unfoldable pub serve : Env → (limit : ℕ) → Bool → World → Option World
unfolding serve_popped
serve env limit process w = serve_popped env process (work_round limit (λ q. q) w.queue) w

-- Turns of the loop of `work`, until there are none left or the worker waits or stops.
unfoldable pub serve_rounds : Env → (limit : ℕ) → Bool → (rounds : ℕ) → World → World
unfolding serve
serve_rounds env limit process zero w = w
serve_rounds env limit process (suc n) w = elim (serve env limit process w) [
  | none ↦ w
  | some u ↦ serve_rounds env limit process n u
]
