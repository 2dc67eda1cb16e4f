-- ===== src/Serving/Waiting.antt =====
-- The tasks that wait in the queue of src/task_base.cpp after bytes came in for a connection.
use mathlib.Core.List.{map-append}
use bserver.Base.{
  ℕ, ◌≡◌, refl, sym, ◌∙◌, false, List, [], ◌∷◌, ◌++◌, append_assoc, append-nil, Bytes, map, arith,
}
use bserver.Message.{MessageFormat, meet_head, payload}
use bserver.Session.{Session, Effect, push_task, on_close}
use bserver.Session.Reads.{feed, Request, requests, closes}
use bserver.Tasks.{TaskBase, task_base, push}
use bserver.Peers.Client.{ClientMap}
use bserver.Peering.{run_effects}
use bserver.World.{World}
use bserver.Serving.{push_tasks, receive}

-- What a worker gets for a message that waits.
abbrev pub request_of : MessageFormat → Request
request_of m = record { head = meet_head m; bytes = payload m; id = m.remote_id }

abbrev pub waiting : TaskBase → List Request
waiting q = map request_of q.deque

pub waiting-push_tasks :
    (es : List Effect) (q : TaskBase) → waiting (push_tasks es q) ≡ waiting q ++ requests es
unfolding push_tasks requests push
waiting-push_tasks [] q = sym (append-nil _)
waiting-push_tasks (push_task m ∷ es) q =
    waiting-push_tasks es (push m q) ∙ simp (map-append, append_assoc)
waiting-push_tasks (on_close ∷ es) q = waiting-push_tasks es q

pub stop-push_tasks : (es : List Effect) (q : TaskBase) → (push_tasks es q).stop ≡ q.stop
unfolding push_tasks push
stop-push_tasks [] q = refl
stop-push_tasks (push_task m ∷ es) q = stop-push_tasks es (push m q)
stop-push_tasks (on_close ∷ es) q = stop-push_tasks es q

open_effects :
    (es : List Effect) (s : Session) (m : ClientMap) → closes es ≡ false → run_effects es s m ≡ m
unfolding closes run_effects
open_effects [] s m e = refl
open_effects (push_task t ∷ es) s m e = open_effects es s m e
open_effects (on_close ∷ es) s m e = cc

pub waiting_for_none : (rs : List Request) → waiting task_base ++ rs ≡ rs
unfolding task_base
waiting_for_none rs = refl

pub running_at_start : task_base.stop ≡ false
unfolding task_base
running_at_start = refl

module _ (fuel k : ℕ) (bytes : Bytes) (w : World) where
  pub session-receive : (receive fuel k bytes w).sessions k ≡ (feed fuel (w.sessions k) bytes).0
  unfolding receive
  session-receive = ground arith

  pub queue-receive :
      (receive fuel k bytes w).queue ≡ push_tasks (feed fuel (w.sessions k) bytes).2 w.queue
  unfolding receive
  queue-receive = refl

  pub clients-receive :
      closes (feed fuel (w.sessions k) bytes).2 ≡ false
      → (receive fuel k bytes w).clients ≡ w.clients
  unfolding receive
  clients-receive e = open_effects (feed fuel (w.sessions k) bytes).2 _ w.clients e

  pub count-receive : (receive fuel k bytes w).send_count ≡ w.send_count
  unfolding receive
  count-receive = refl
