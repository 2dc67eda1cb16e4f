-- ===== src/Serving/Worked.antt =====
-- What a pop of src/task_base.cpp hands to a worker, and what the end of its task does to the world.
use bserver.Base.{
  ℕ, ◌+◌, ◌≡◌, ◌⊎◌, inl, inr, refl, Bool-cases, true, false, List, [], ◌∷◌, ◌++◌, Bytes, some,
  length, map, Bool, ltb, arith,
}
use bserver.Message.{Head, MessageFormat, meet_head}
use bserver.Tasks.{
  TaskBase, Task, popped, try_pop_from, wait_and_pop_from, task_of, full_queue_event,
}
use bserver.Tasks.Order.{content, contents_of}
use bserver.Peers.Client.{fix_get}
use bserver.Proto.{Env}
use bserver.Responders.Service.{server_service_parser}
use bserver.Logic.Dispatch.{answer_message}
use bserver.World.{World}
use bserver.Serving.{do_work}
use bserver.Serving.Rounds.{do_work_200, write_all}
use bserver.Logic
use bserver.Logic.Replies.{server_response_found, busy_unanswered}
use bserver.Serving.Crew.{Crew, replies}

-- What a worker was given of a request from the connection of the name, marked as busy or not.
pub record IsTaskOf (id : Bytes) (t : Task) : Type 0 where
  pub own : t.id ≡ id
  pub known : (t.head.cmd ≡ 200) ⊎ (t.head.cmd ≡ 1010)

abbrev pub finished_tasks : Crew → List Task
finished_tasks a = map (λ (p : Env × Task). p.1) a.finished

-- A pop takes the first message, with its own header or with the one of a busy server.
pub record Pops (ms : List MessageFormat) (t : Task) (q : TaskBase) : Type 0 where
  pub first : MessageFormat
  pub before : ms ≡ first ∷ q.deque
  pub same : content t ≡ contents_of first
  pub cmd : (t.head.cmd ≡ (meet_head first).cmd) ⊎ (t.head.cmd ≡ 1010)

pub try_pop-Pops :
    (limit : ℕ) (ms : List MessageFormat) (stop : Bool) (t : Task) (q : TaskBase)
    → try_pop_from limit ms stop ≡ some (t, q)
    → Pops ms t q
unfolding try_pop_from task_of full_queue_event
try_pop-Pops limit [] stop t q e = absurd (cc)
try_pop-Pops limit (m ∷ ms) stop t q e = record {
  first = m;
  before = ground arith;
  same = ground arith;
  cmd = elim (Bool-cases (ltb limit (length (m ∷ ms)))) [
    | inl full ↦ inr (ground arith)
    | inr room ↦ inl (ground arith)
  ];
}

pub wait_and_pop-Pops :
    (ms : List MessageFormat) (stop : Bool) (t : Task) (q : TaskBase)
    → wait_and_pop_from ms stop ≡ popped t q
    → Pops ms t q
unfolding wait_and_pop_from task_of
wait_and_pop-Pops ms true t q e = absurd (cc)
wait_and_pop-Pops [] false t q e = absurd (cc)
wait_and_pop-Pops (m ∷ ms) false t q e = record {
  first = m;
  before = ground arith;
  same = ground arith;
  cmd = inl (ground arith);
}

pub replies-append : (ts us : List (Env × Task)) → replies (ts ++ us) ≡ replies ts ++ replies us
unfolding replies
replies-append [] us = refl
replies-append ((env, t) ∷ ts) us = ground (arith, replies-append ts us)

replies_answered :
    (env : Env) (t : Task)
    → t.head.cmd ≡ 200
    → replies ((env, t) ∷ [])
      ≡ answer_message env t.head (server_service_parser env t.bytes []).1 ∷ []
unfolding replies
replies_answered env t e = ground arith

replies_busy : (env : Env) (t : Task) → t.head.cmd ≡ 1010 → replies ((env, t) ∷ []) ≡ []
unfolding replies
replies_busy env t e = ground arith

-- What the end of a task does to the world.
pub record Worked (k : ℕ) (answered : List MessageFormat) (before after : World) : Type 0 where
  pub written : after.sessions k ≡ write_all answered (before.sessions k)
  pub counted : after.send_count ≡ before.send_count + length answered
  pub clients : after.clients ≡ before.clients
  pub queue : after.queue ≡ before.queue

module _ (env : Env) (c : ℕ) (id : Bytes) (k : ℕ) where
  answered-Worked :
      (h : Head) (bytes : Bytes) (w : World)
      → h.cmd ≡ 200
      → fix_get (c ∷ id) w.clients ≡ some k
      → let m = answer_message env h (server_service_parser env bytes []).1 in
        Worked k (m ∷ []) w (Logic.do_work env (c ∷ id) h bytes w)
  unfolding write_all
  answered-Worked h bytes w e found =
      let body = (server_service_parser env bytes []).1 in
      rw (do_work_200 env (c ∷ id) h bytes w e, server_response_found env c id h body w k found)
        record { written = ground arith; counted = ground arith; clients = refl; queue = refl }

  unanswered-Worked :
      (h : Head) (bytes : Bytes) (w : World)
      → h.cmd ≡ 1010
      → Worked k [] w (Logic.do_work env (c ∷ id) h bytes w)
  unfolding write_all
  unanswered-Worked h bytes w e =
      rw (busy_unanswered env (c ∷ id) h bytes w e)
        record { written = refl; counted = ground arith; clients = refl; queue = refl }

  pub do_work-Worked :
      (t : Task) (w : World)
      → IsTaskOf (c ∷ id) t
      → fix_get (c ∷ id) w.clients ≡ some k
      → Worked k (replies ((env, t) ∷ [])) w (do_work env true t w)
  unfolding do_work
  do_work-Worked t w v found = elim v.known [
    | inl e ↦ rw (replies_answered env t e, v.own) (answered-Worked t.head t.bytes w e found)
    | inr e ↦ rw (replies_busy env t e, v.own) (unanswered-Worked t.head t.bytes w e)
  ]
