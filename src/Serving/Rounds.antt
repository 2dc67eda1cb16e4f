-- ===== src/Serving/Rounds.antt =====
-- The rounds of a worker of src/task_base.cpp over service requests that wait.
use bserver.Base.{
  ℕ, suc, ◌+◌, ◌≤◌, ◌≡◌, refl, sym, ap, ◌∙◌, true, false, List, [], ◌∷◌, ◌++◌, append_assoc,
  append-nil, Bytes, Option, none, some, length, length-map, All, map, Option-cases, inl, inr,
  arith,
}
use bserver.Message.{Head, MessageFormat, meet_head, payload}
use bserver.Session.{Session, write, write_front}
use bserver.Session.Reads.{Request}
use bserver.Tasks.{task_base, work_round, task_of}
use bserver.Peers.Client.{fix_get}
use bserver.Proto.{Env, ServiceRequest}
use bserver.Http.{HttpRequest}
use bserver.Responders.Result.{ServiceResponseResult}
use bserver.Responders.Package.{package_parser}
use bserver.Responders.Service.{server_service_parser, service_parser, handle_payload, wrap}
use bserver.Logic
use bserver.Logic.Replies.{server_response_found}
use bserver.Logic.Dispatch.{answer_message, server_response}
use bserver.World.{World, update}
use bserver.Serving.{do_work, serve, serve_popped, serve_rounds}
use bserver.Serving.Waiting.{request_of, waiting}

-- The messages that answer a list of service requests, oldest first.
unfoldable pub answers : Env → List Request → List MessageFormat
answers env [] = []
answers env (r ∷ rs) =
    answer_message env r.head (server_service_parser env r.bytes []).1 ∷ answers env rs

unfoldable pub write_all : List MessageFormat → Session → Session
write_all [] s = s
write_all (m ∷ ms) s = write_all ms (write m s)

sync_package : (env : Env) (bytes r : Bytes) → (package_parser env bytes r).0.is_async ≡ false
unfolding package_parser
sync_package env bytes r = ground arith

sync_wrap :
    (env : Env) (sr : ServiceRequest) (r : Bytes)
    (p : ServiceResponseResult × Bytes × List HttpRequest)
    → p.0.is_async ≡ false
    → (wrap env sr r p).0.is_async ≡ false
unfolding wrap
sync_wrap env sr r p e = ground arith

sync_payload :
    (env : Env) (sr : ServiceRequest) (r : Bytes) (o : Option Bytes)
    → (handle_payload env (package_parser env) sr r o).0.is_async ≡ false
unfolding handle_payload
sync_payload env sr r none = refl
sync_payload env sr r (some s) =
    sync_wrap env sr r (package_parser env s []) (sync_package env s [])

sync_service :
    (env : Env) (bytes r : Bytes) → (server_service_parser env bytes r).0.is_async ≡ false
unfolding server_service_parser service_parser
sync_service env bytes r = elim (Option-cases (env.parse_request bytes)) [
  | inl e ↦ rw (e, service_parser) refl
  | inr (sr, e) ↦ ground (arith, e, sync_payload env sr r sr.payload)
]

-- A service request is answered whatever it holds.
pub do_work_200 :
    (env : Env) (id : Bytes) (h : Head) (bytes : Bytes) (w : World)
    → h.cmd ≡ 200
    → Logic.do_work env id h bytes w
      ≡ server_response env id h (server_service_parser env bytes []).1 w
unfolding Logic.do_work Logic.responser_of Logic.run_responser
do_work_200 env id h bytes w e = ground (arith, sync_service env bytes [])

-- A service request that came over the connection of the name.
abbrev pub IsServiceOf : Bytes → Request → Type 0
IsServiceOf id r = (r.head.cmd ≡ 200) × (r.id ≡ id)

module _ (env : Env) (limit c : ℕ) (id : Bytes) (k : ℕ) where
  -- The world after a worker answered the first message that waits.
  served : MessageFormat → List MessageFormat → World → World
  served m ms w = record w {
    queue = record { deque = ms; stop = false };
    sessions = update w.sessions k (
        write (answer_message env (meet_head m) (server_service_parser env (payload m) []).1)
          (w.sessions k));
    send_count = suc w.send_count;
  }

  serve_first :
      (m : MessageFormat) (ms : List MessageFormat) (w : World)
      → w.queue ≡ record { deque = m ∷ ms; stop = false }
      → length (m ∷ ms) ≤ limit
      → serve env limit true w
        ≡ some (
            Logic.do_work env m.remote_id
              (meet_head m)
              (payload m)
              (record w { queue = record { deque = ms; stop = false } }))
  unfolding serve serve_popped do_work work_round task_of
  serve_first m ms w q h = rw q (ground arith)

  serve_service :
      (m : MessageFormat) (ms : List MessageFormat) (w : World)
      → w.queue ≡ record { deque = m ∷ ms; stop = false }
      → length (m ∷ ms) ≤ limit
      → IsServiceOf (c ∷ id) (request_of m)
      → fix_get (c ∷ id) w.clients ≡ some k
      → serve env limit true w ≡ some (served m ms w)
  unfolding served
  serve_service m ms w q h (cmd, own) found =
      let w' = record w { queue = record { deque = ms; stop = false } } in
      let body = (server_service_parser env (payload m) []).1 in
      serve_first m ms w q h
      ∙ ap some (
          ap (λ i. Logic.do_work env i (meet_head m) (payload m) w') own
          ∙ do_work_200 env (c ∷ id) (meet_head m) (payload m) w' cmd
          ∙ server_response_found env c id (meet_head m) body w' k found)

  next_round :
      (n : ℕ) (w u : World)
      → serve env limit true w ≡ some u
      → serve_rounds env limit true (suc n) w ≡ serve_rounds env limit true n u
  unfolding serve_rounds
  next_round n w u e = rw (e, serve_rounds) refl

  sessions-served :
      (m : MessageFormat) (ms : List MessageFormat) (w : World)
      → (served m ms w).sessions k
        ≡ write
            (answer_message env (meet_head m) (server_service_parser env (payload m) []).1)
            (w.sessions k)
  unfolding served
  sessions-served m ms w = ground arith

  serve_each :
      (ms : List MessageFormat) (w : World)
      → w.queue ≡ record { deque = ms; stop = false }
      → length ms ≤ limit
      → All (IsServiceOf (c ∷ id)) (map request_of ms)
      → fix_get (c ∷ id) w.clients ≡ some k
      → let u = serve_rounds env limit true (length ms) w in
        (u.sessions k ≡ write_all (answers env (map request_of ms)) (w.sessions k))
        × (u.queue ≡ task_base)
        × (u.send_count ≡ w.send_count + length ms)
  unfolding answers write_all
  serve_each [] w q h ok found = unfold serve_rounds task_base in (refl, q, omega arith)
  serve_each (m ∷ ms) w q h (own, ok) found =
      let step = next_round (length ms) w (served m ms w) (serve_service m ms w q h own found) in
      let (written, empty, count) =
        serve_each ms (served m ms w) (unfold served in refl) (omega arith) ok
          (unfold served in found) in
      (
        ap (λ u. u.sessions k) step
            ∙ written
            ∙ ap (write_all (answers env (map request_of ms))) (sessions-served m ms w),
        ap (λ u. u.queue) step ∙ empty,
        ap (λ u. u.send_count) step ∙ count ∙ (unfold served in omega arith),
      )

  pub serve_waiting :
      (rs : List Request) (w : World)
      → waiting w.queue ≡ rs
      → w.queue.stop ≡ false
      → length rs ≤ limit
      → All (IsServiceOf (c ∷ id)) rs
      → fix_get (c ∷ id) w.clients ≡ some k
      → let u = serve_rounds env limit true (length rs) w in
        (u.sessions k ≡ write_all (answers env rs) (w.sessions k))
        × (u.queue ≡ task_base)
        × (u.send_count ≡ w.send_count + length rs)
  serve_waiting rs w e f room ok found =
      let same : length w.queue.deque ≡ length rs =
        sym (length-map request_of w.queue.deque) ∙ ap length e in
      rw (← same, ← e)
        (serve_each w.queue.deque w (ground (arith, f)) (rw same room) (rw e ok) found)

write_msgs-write_front :
    (ms : List MessageFormat) (s : Session) → (write_front ms s).write_msgs ≡ s.write_msgs
unfolding write_front
write_msgs-write_front [] s = refl
write_msgs-write_front (m ∷ ms) s = refl

write_msgs-write :
    (m : MessageFormat) (s : Session) → (write m s).write_msgs ≡ s.write_msgs ++ (m ∷ [])
unfolding write
write_msgs-write m s = ground (
  arith,
  write_msgs-write_front (s.write_msgs ++ (m ∷ []))
      (record s { write_msgs = s.write_msgs ++ (m ∷ []); inter_lock = true }),
)

pub write_msgs-write_all :
    (ms : List MessageFormat) (s : Session) → (write_all ms s).write_msgs ≡ s.write_msgs ++ ms
unfolding write_all
write_msgs-write_all [] s = sym (append-nil _)
write_msgs-write_all (m ∷ ms) s =
    write_msgs-write_all ms (write m s)
    ∙ ap (λ (l : List MessageFormat). l ++ ms) (write_msgs-write m s)
    ∙ append_assoc s.write_msgs (m ∷ []) ms
