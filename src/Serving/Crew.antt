-- ===== src/Serving/Crew.antt =====
-- All workers of src/task_base.cpp over one queue, with the tasks of src/session_task.cpp that they have in
-- hand: which worker takes which message, and which is ready first, is left open. A task changes the world
-- in one step: an answer is one `write`, which has the mutex of its session. What is outside the program
-- may differ from task to task. Of one session, writes complete.
use bserver.Base.{◌≡◌, true, false, Bytes, List, [], ◌∷◌, ◌++◌, ℕ, some, ◌==◌, if◌then◌else◌}
use bserver.Message.{MessageFormat}
use bserver.Tasks.{TaskBase, Task, popped, push, try_pop, wait_and_pop}
use bserver.Proto.{Env}
use bserver.Responders.Service.{server_service_parser}
use bserver.Logic.Dispatch.{answer_message}
use bserver.Session.{handle_write}
use bserver.World.{World, update}
use bserver.Serving.{do_work}

-- `serving` are the tasks that workers have in hand, `finished` those that they are done with, oldest
-- first, `pushed` all messages that were pushed, and `sent` what completed writes of a session have sent.
pub record Crew : Type 0 where
  pub world : World
  pub serving : List Task
  pub finished : List (Env × Task)
  pub pushed : List MessageFormat
  pub sent : List Bytes

unfoldable pub crew : World → Crew
crew w = record { world = w; serving = []; finished = []; pushed = []; sent = [] }

unfoldable pub come : MessageFormat → Crew → Crew
unfolding push
come m a = record a {
  world = record a.world { queue = push m a.world.queue };
  pushed = a.pushed ++ (m ∷ []);
}

-- A worker has popped a task.
unfoldable pub take_up : Task → TaskBase → Crew → Crew
take_up t q a = record a { world = record a.world { queue = q }; serving = a.serving ++ (t ∷ []) }

-- A worker is done with a task; the others have `rest` in hand.
unfoldable pub finish : Env → Task → (rest : List Task) → Crew → Crew
unfolding do_work
finish env t rest a = record a {
  world = do_work env true t a.world;
  serving = rest;
  finished = a.finished ++ ((env, t) ∷ []);
}

-- A write of a session completes: `b` is the buffer, `rest` what else is outstanding.
unfoldable pub complete : (k : ℕ) → (b : Bytes) → (rest : List Bytes) → Crew → Crew
unfolding handle_write
complete k b rest a = record a {
  world = record a.world {
    sessions =
        update a.world.sessions k
          (handle_write false (record (a.world.sessions k) { writing = rest })).0;
  };
  sent = a.sent ++ (b ∷ []);
}

pub data Step (limit k : ℕ) (a : Crew) : Crew → Type 0 where
  comes : (m : MessageFormat) → Step limit k a (come m a)
  tries :
      (t : Task) (q : TaskBase)
      → try_pop limit a.world.queue ≡ some (t, q)
      → Step limit k a (take_up t q a)
  awaits :
      (t : Task) (q : TaskBase)
      → wait_and_pop a.world.queue ≡ popped t q
      → Step limit k a (take_up t q a)
  finishes :
      (env : Env) (before : List Task) (t : Task) (after : List Task)
      → a.serving ≡ before ++ (t ∷ after)
      → Step limit k a (finish env t (before ++ after) a)
  completes :
      (b : Bytes) (rest : List Bytes)
      → (a.world.sessions k).writing ≡ b ∷ rest
      → Step limit k a (complete k b rest a)

pub data Reach (limit k : ℕ) (a : Crew) : Crew → Type 0 where
  here : Reach limit k a a
  next : {b c : Crew} → Reach limit k a b → Step limit k b c → Reach limit k a c

-- The answers to the service requests among finished tasks.
unfoldable pub replies : List (Env × Task) → List MessageFormat
replies [] = []
replies ((env, t) ∷ ts) =
    let rest = replies ts in
    if t.head.cmd == 200
    then answer_message env t.head (server_service_parser env t.bytes []).1 ∷ rest
    else rest
