-- ===== src/Serving/Answered.antt =====
-- Requests that come in over a connection are answered over it, in their order.
use bserver.Base.{
  ℕ, ◌+◌, ◌*◌, ◌≤◌, ◌≡◌, ap, ◌∙◌, true, List, [], ◌∷◌, ◌++◌, append-nil, Bytes, some, length, All,
  inl, inr, ◌⊎◌, arith,
}
use bserver.Message.{Head, max_body_length, MessageFormat}
use bserver.Message.Frame.{IsHead}
use bserver.Session.{for_head}
use bserver.Session.Reads.{feed, requests}
use bserver.Session.Framing.{stream, sent_requests, feed-stream, Handed}
use bserver.Session.FrameReads.{IsFrame}
use bserver.Tasks.{task_base}
use bserver.Peers.Client.{fix_get}
use bserver.Proto.{Env}
use bserver.World.{World}
use bserver.Serving.{receive, serve_rounds}
use bserver.Serving.Waiting.{
  waiting, waiting-push_tasks, stop-push_tasks, waiting_for_none, running_at_start, session-receive,
  queue-receive, clients-receive, count-receive,
}
use bserver.Serving.Rounds.{answers, IsServiceOf, serve_waiting, write_msgs-write_all}

-- A frame with a service request, or with the answer to a keepalive.
abbrev pub IsServiceFrame : Head × Bytes → Type 0
IsServiceFrame (h, body) =
    IsHead h × (length body ≤ max_body_length) × ((h.cmd ≡ 200) ⊎ (h.cmd ≡ 1))

frames_of_service : (ms : List (Head × Bytes)) → All IsServiceFrame ms → All IsFrame ms
frames_of_service [] ok = tt
frames_of_service ((h, body) ∷ ms) ((w, fits, cmd), ok) = ((w, fits), frames_of_service ms ok)

services_sent :
    (id : Bytes) (ms : List (Head × Bytes))
    → All IsServiceFrame ms
    → All (IsServiceOf id) (sent_requests id ms)
unfolding sent_requests
services_sent id [] ok = tt
services_sent id ((h, body) ∷ ms) ((w, fits, inl cmd), ok) = ground (arith, services_sent id ms ok)
services_sent id ((h, body) ∷ ms) ((w, fits, inr cmd), ok) = ground (arith, services_sent id ms ok)

-- Service requests and answers to keepalives that come in over a connection of the registry, while no
-- task waits and for no more requests than the queue may hold: a worker answers every request, in
-- their order, on the same connection. The messages to write are those from before, and then the
-- answers; the queue is empty again, and each answer is counted.
pub stream_answered :
    (env : Env) (limit c : ℕ) (id : Bytes) (k : ℕ) (ms : List (Head × Bytes)) (w : World)
    → All IsServiceFrame ms
    → (w.sessions k).reading ≡ for_head
    → (w.sessions k).read_msg.remote_id ≡ c ∷ id
    → fix_get (c ∷ id) w.clients ≡ some k
    → w.queue ≡ task_base
    → length (sent_requests (c ∷ id) ms) ≤ limit
    → let rs = sent_requests (c ∷ id) ms in
      let w' = receive (2 * length ms) k (stream ms) w in
      let u = serve_rounds env limit true (length rs) w' in
      ((u.sessions k).write_msgs ≡ (w.sessions k).write_msgs ++ answers env rs)
      × (u.queue ≡ task_base)
      × (u.send_count ≡ w.send_count + length rs)
stream_answered env limit c id k ms w ok idle own found empty room =
    let n = 2 * length ms in
    let s = w.sessions k in
    let rs = sent_requests (c ∷ id) ms in
    let w' = receive n k (stream ms) w in
    let (t, left, es) = feed n s (stream ms) in
    let fed : Handed s [] ms (feed n s (stream ms)) =
      rw (← append-nil (stream ms))
        (feed-stream ms n s [] (frames_of_service ms ok) idle (omega arith) (omega arith)) in
    let (waits, shut, same, rest, closed, got) = fed in
    let own_requests = got ∙ ap (λ i. sent_requests i ms) own in
    let waits' =
      ap waiting (queue-receive n k (stream ms) w)
      ∙ waiting-push_tasks es w.queue
      ∙ ap (λ q. waiting q ++ requests es) empty
      ∙ waiting_for_none (requests es)
      ∙ own_requests in
    let running =
      ap (λ q. q.stop) (queue-receive n k (stream ms) w)
      ∙ stop-push_tasks es w.queue
      ∙ ap (λ q. q.stop) empty
      ∙ running_at_start in
    let (written, drained, count) =
      serve_waiting env limit c id k rs w' waits' running room (services_sent (c ∷ id) ms ok)
        (ap (fix_get (c ∷ id)) (clients-receive n k (stream ms) w closed) ∙ found) in
    let before = ap (λ a. a.write_msgs) (session-receive n k (stream ms) w) ∙ same in
    (
      ap (λ a. a.write_msgs) written
          ∙ write_msgs-write_all (answers env rs) (w'.sessions k)
          ∙ ap (λ (l : List MessageFormat). l ++ answers env rs) before,
      drained,
      count ∙ ap (λ a. a + length rs) (count-receive n k (stream ms) w),
    )
