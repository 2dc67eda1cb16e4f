-- ===== src/Serving/Shared.antt =====
-- What all workers together do to requests of one connection.
use mathlib.Core.Path.{subst}
use mathlib.Core.List.{map-append, Perm}
use mathlib.Core.List.Perm
use bserver.Base.{
  false, ℕ, ◌+◌, ◌≡◌, inl, inr, refl, sym, ap, ◌∙◌, List, [], ◌∷◌, ◌++◌, append_assoc, append-nil,
  Bytes, some, length, length-append, All, map, arith,
}
use bserver.Message.{MessageFormat}
use bserver.Tasks.{TaskBase, Task, task_base, push, try_pop, wait_and_pop, task_of}
use bserver.Tasks.Order.{content, contents_of}
use bserver.Peers.Client.{fix_get}
use bserver.Proto.{Env}
use bserver.Session.{Session, wire, write}
use bserver.Session.Writes
use bserver.Session.Writes.{Link}
use bserver.World.{World, update}
use bserver.Serving.Waiting.{request_of}
use bserver.Serving.Rounds.{IsServiceOf, write_all}
use bserver.Serving.Crew.{
  Crew, crew, come, take_up, finish, complete, Step, comes, tries, awaits, finishes, completes,
  Reach, here, next, replies,
}
use bserver.Base.Perms.{perm_finish, perm_come, take_up_eq}
use bserver.Base.Alls.{All-append, All-left, All-right}
use bserver.Serving.Worked.{
  IsTaskOf, finished_tasks, Pops, try_pop-Pops, wait_and_pop-Pops, replies-append, do_work-Worked,
}

-- The session of a handle, with what it has sent and what it was given to write.
abbrev pub link : (k : ℕ) → Crew → Link
link k a = record {
  session = a.world.sessions k;
  sent = a.sent;
  submitted = replies a.finished;
  broken = false;
}

-- Nothing is written, and nothing waits to be.
abbrev pub IsQuiet : Session → Type 0
IsQuiet s = (s.write_msgs ≡ []) × (s.writing ≡ []) × (s.inter_lock ≡ false)

update_same : (k : ℕ) (f : ℕ → Session) (s : Session) → update f k s k ≡ s
update_same k f s = ground arith

write_all-Inv :
    (ms : List MessageFormat) (s : Session) (sent : List Bytes) (before : List MessageFormat)
    → Writes.Inv (record { session = s; sent = sent; submitted = before; broken = false })
    → Writes.Inv
        (record { session = write_all ms s; sent = sent; submitted = before ++ ms; broken = false })
unfolding write_all
write_all-Inv [] s sent before v = rw (append-nil before) v
write_all-Inv (m ∷ ms) s sent before v = rw (← append_assoc before (m ∷ []) ms) (
    write_all-Inv ms (write m s) sent (before ++ (m ∷ []))
      (Writes.Reach-Inv v (Writes.next Writes.here (Writes.writes m))))

-- What holds of all workers together, as long as all that comes in are requests of one connection: `w` is
-- the world at the start.
record Inv (w : World) (k : ℕ) (id : Bytes) (a : Crew) : Type 0 where
  pub kept :
      Perm
        (map content (finished_tasks a)
          ++ map content a.serving
          ++ map contents_of a.world.queue.deque)
        (map contents_of a.pushed)
  pub linked : Writes.Inv (link k a)
  pub counted : a.world.send_count ≡ w.send_count + length (replies a.finished)
  pub found : fix_get id a.world.clients ≡ some k
  pub waiting_known : All (IsServiceOf id) (map request_of a.world.queue.deque)
  pub serving_known : All (IsTaskOf id) a.serving
  pub finished_known : All (IsTaskOf id) (finished_tasks a)

module _ (w : World) (c : ℕ) (id : Bytes) (k : ℕ) where
  come-Inv :
      (m : MessageFormat) (a : Crew)
      → IsServiceOf (c ∷ id) (request_of m)
      → Inv w k (c ∷ id) a
      → Inv w k (c ∷ id) (come m a)
  unfolding come push
  come-Inv m a own v = record {
    kept =
        rw
          (
            map-append contents_of a.world.queue.deque (m ∷ []),
            map-append contents_of a.pushed (m ∷ []),
          )
          (perm_come _ _ _ (contents_of m) v.kept);
    linked = v.linked;
    counted = v.counted;
    found = v.found;
    waiting_known =
        rw (map-append request_of a.world.queue.deque (m ∷ []))
          (All-append (IsServiceOf (c ∷ id)) _ _ v.waiting_known (own, tt));
    serving_known = v.serving_known;
    finished_known = v.finished_known;
  }

  take_up-Inv :
      (t : Task) (q : TaskBase) (a : Crew)
      → Pops a.world.queue.deque t q
      → Inv w k (c ∷ id) a
      → Inv w k (c ∷ id) (take_up t q a)
  unfolding take_up task_of
  take_up-Inv t q a p v =
      let known : All (IsServiceOf (c ∷ id)) (map request_of (p.first ∷ q.deque)) =
        subst (λ ms. All (IsServiceOf (c ∷ id)) (map request_of ms)) p.before v.waiting_known in
      let ordered : Perm
          (map content (finished_tasks a)
            ++ map content a.serving
            ++ (contents_of p.first ∷ map contents_of q.deque))
          (map contents_of a.pushed) =
        subst
          (λ ms.
            Perm (map content (finished_tasks a) ++ map content a.serving ++ map contents_of ms)
              (map contents_of a.pushed))
          p.before v.kept in
      let (cmd, own) = known.0 in
      record {
        kept =
            rw
              (
                map-append content a.serving (t ∷ []),
                take_up_eq (map content (finished_tasks a)) (map content a.serving)
                    (map contents_of q.deque) (content t),
                p.same,
              )
              ordered;
        linked = v.linked;
        counted = v.counted;
        found = v.found;
        waiting_known = known.1;
        serving_known = All-append (IsTaskOf (c ∷ id)) _ _ v.serving_known (
          record {
            own = ap (λ r. r.1) p.same ∙ own;
            known = elim p.cmd [ inl same ↦ inl (same ∙ cmd) | inr busy ↦ inr busy ];
          },
          tt,
        );
        finished_known = v.finished_known;
      }

  finish-Inv :
      (env : Env) (before : List Task) (t : Task) (after : List Task) (a : Crew)
      → a.serving ≡ before ++ (t ∷ after)
      → Inv w k (c ∷ id) a
      → Inv w k (c ∷ id) (finish env t (before ++ after) a)
  unfolding finish
  finish-Inv env before t after a e v =
      let known : All (IsTaskOf (c ∷ id)) (before ++ (t ∷ after)) =
        subst (All (IsTaskOf (c ∷ id))) e v.serving_known in
      let rest = All-right (IsTaskOf (c ∷ id)) before (t ∷ after) known in
      let u = do_work-Worked env c id k t a.world rest.0 v.found in
      let f = map content (finished_tasks a) in
      let q = map contents_of a.world.queue.deque in
      let whole : Perm (f ++ (map content before ++ (content t ∷ map content after)) ++ q)
          (map contents_of a.pushed) =
        rw (← map-append content before (t ∷ after), ← e) v.kept in
      let tasks_after : map (λ (p : Env × Task). p.1) (a.finished ++ ((env, t) ∷ []))
          ≡ finished_tasks a ++ (t ∷ []) =
        map-append (λ (p : Env × Task). p.1) a.finished ((env, t) ∷ []) in
      record {
        kept =
            rw
              (
                tasks_after,
                map-append content (finished_tasks a) (t ∷ []),
                map-append content before after,
                u.queue,
              )
              (perm_finish f (map contents_of a.pushed) q (content t) (map content before)
                (map content after) whole);
        linked =
            rw (u.written, replies-append a.finished ((env, t) ∷ []))
              (write_all-Inv (replies ((env, t) ∷ [])) (a.world.sessions k) a.sent
                (replies a.finished) v.linked);
        counted =
            let one = u.counted in
            let many = v.counted in
            let sum = length-append (replies a.finished) (replies ((env, t) ∷ [])) in
            rw (replies-append a.finished ((env, t) ∷ [])) (omega arith);
        found = ap (fix_get (c ∷ id)) u.clients ∙ v.found;
        waiting_known =
            subst (λ (l : TaskBase). All (IsServiceOf (c ∷ id)) (map request_of l.deque))
              (sym u.queue) v.waiting_known;
        serving_known =
            All-append (IsTaskOf (c ∷ id)) before after
              (All-left (IsTaskOf (c ∷ id)) before (t ∷ after) known) rest.1;
        finished_known = rw tasks_after (
            All-append (IsTaskOf (c ∷ id)) (finished_tasks a) (t ∷ []) v.finished_known
              (rest.0, tt));
      }

  complete-Inv :
      (b : Bytes) (rest : List Bytes) (a : Crew)
      → (a.world.sessions k).writing ≡ b ∷ rest
      → Inv w k (c ∷ id) a
      → Inv w k (c ∷ id) (complete k b rest a)
  unfolding complete
  complete-Inv b rest a e v = record {
    kept = v.kept;
    linked =
        subst (λ s. Writes.Inv (record (link k a) { session = s; sent = a.sent ++ (b ∷ []) }))
          (sym (update_same k a.world.sessions _))
          (Writes.Reach-Inv v.linked (Writes.next Writes.here (Writes.wrote b rest e)));
    counted = v.counted;
    found = v.found;
    waiting_known = v.waiting_known;
    serving_known = v.serving_known;
    finished_known = v.finished_known;
  }

  -- What was pushed before a message, and the message.
  pushed_split :
      (m : MessageFormat) (a : Crew)
      → All (IsServiceOf (c ∷ id)) (map request_of (come m a).pushed)
      → All (IsServiceOf (c ∷ id)) (map request_of a.pushed) × IsServiceOf (c ∷ id) (request_of m)
  unfolding come
  pushed_split m a ok =
      let split : All (IsServiceOf (c ∷ id)) (map request_of a.pushed ++ (request_of m ∷ [])) =
        subst (All (IsServiceOf (c ∷ id))) (map-append request_of a.pushed (m ∷ [])) ok in
      (
        All-left (IsServiceOf (c ∷ id)) (map request_of a.pushed) (request_of m ∷ []) split,
        (All-right (IsServiceOf (c ∷ id)) (map request_of a.pushed) (request_of m ∷ []) split).0,
      )

  step-Inv :
      {limit : ℕ} {a b : Crew}
      → Step limit k a b
      → All (IsServiceOf (c ∷ id)) (map request_of b.pushed)
      → Inv w k (c ∷ id) a
      → Inv w k (c ∷ id) b
  unfolding try_pop wait_and_pop
  step-Inv {a} (comes m) ok v = come-Inv m a (pushed_split m a ok).1 v
  step-Inv {limit} {a} (tries t q e) ok v =
      take_up-Inv t q a (try_pop-Pops limit a.world.queue.deque a.world.queue.stop t q e) v
  step-Inv {a} (awaits t q e) ok v =
      take_up-Inv t q a (wait_and_pop-Pops a.world.queue.deque a.world.queue.stop t q e) v
  step-Inv {a} (finishes env before t after e) ok v = finish-Inv env before t after a e v
  step-Inv {a} (completes b rest e) ok v = complete-Inv b rest a e v

  pushed_before :
      {limit : ℕ} {a b : Crew}
      → Step limit k a b
      → All (IsServiceOf (c ∷ id)) (map request_of b.pushed)
      → All (IsServiceOf (c ∷ id)) (map request_of a.pushed)
  unfolding take_up finish complete
  pushed_before {a} (comes m) ok = (pushed_split m a ok).0
  pushed_before (tries t q e) ok = ok
  pushed_before (awaits t q e) ok = ok
  pushed_before (finishes env before t after e) ok = ok
  pushed_before (completes b rest e) ok = ok

  crew-Inv :
      w.queue ≡ task_base
      → fix_get (c ∷ id) w.clients ≡ some k
      → IsQuiet (w.sessions k)
      → Inv w k (c ∷ id) (crew w)
  unfolding crew replies
  crew-Inv e found quiet =
      let none_waits : w.queue.deque ≡ [] = ap (λ q. q.deque) e ∙ (unfold task_base in refl) in
      record {
        kept = rw none_waits (Perm.refl []);
        linked = record {
          one_write = ground (arith, quiet);
          lock = ground (arith, quiet);
          in_order = ground (arith, quiet);
        };
        counted = grind arith;
        found = found;
        waiting_known = rw none_waits tt;
        serving_known = tt;
        finished_known = tt;
      }

  Reach-Inv :
      {limit : ℕ} {a : Crew}
      → w.queue ≡ task_base
      → fix_get (c ∷ id) w.clients ≡ some k
      → IsQuiet (w.sessions k)
      → Reach limit k (crew w) a
      → All (IsServiceOf (c ∷ id)) (map request_of a.pushed)
      → Inv w k (c ∷ id) a
  Reach-Inv e found quiet here ok = crew-Inv e found quiet
  Reach-Inv e found quiet (next r st) ok =
      step-Inv st ok (Reach-Inv e found quiet r (pushed_before st ok))

-- All workers together, on requests of one connection that the registry of servers has and to which
-- nothing is being written, however workers, readers and completed writes interleave and whatever the
-- tasks find outside the program, as long as no write fails. The bodies and ids of the tasks that are
-- finished, in hand and in the queue are those that were pushed, none lost or doubled. What the connection
-- has sent and is to send are the answers of the finished tasks, in the order in which they were finished,
-- and each is counted. A finished task is a service request, and then has an answer, or was marked as busy.
pub crew_serves :
    (limit : ℕ) (w : World) (c : ℕ) (id : Bytes) (k : ℕ) (a : Crew)
    → w.queue ≡ task_base
    → fix_get (c ∷ id) w.clients ≡ some k
    → IsQuiet (w.sessions k)
    → Reach limit k (crew w) a
    → All (IsServiceOf (c ∷ id)) (map request_of a.pushed)
    → Perm
        (map content (finished_tasks a)
          ++ map content a.serving
          ++ map contents_of a.world.queue.deque)
        (map contents_of a.pushed)
      × (a.sent ++ map wire (a.world.sessions k).write_msgs ≡ map wire (replies a.finished))
      × (a.world.send_count ≡ w.send_count + length (replies a.finished))
      × All (IsTaskOf (c ∷ id)) (finished_tasks a)
crew_serves limit w c id k a empty found quiet r ok =
    let v = Reach-Inv w c id k empty found quiet r ok in
    (v.kept, v.linked.in_order, v.counted, v.finished_known)
