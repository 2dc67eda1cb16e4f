-- ===== src/Acceptor/Registered.antt =====
-- Which sessions src/peer_handle_server.cpp has in the registry of clients.
use bserver.Base.{
  ap, ℕ, suc, ◌<◌, ◌≡◌, refl, ◌∙◌, Bool, true, false, List, [], ◌∷◌, Bytes, bytes_eq, bytes_eq_iff,
  Option, none, some, Bool-cases, inl, inr, ◌||◌, ◌==◌, if◌then◌else◌, arith,
}
use bserver.Base.Maps.{lookup}
use bserver.Message.{Head}
use bserver.Session
use bserver.Session.{
  Session, Effect, push_task, on_close, new_session, write, write_front, write_next, handle_write,
  handle_read_header, handle_read_body, after_head, do_head,
}
use bserver.Peers
use bserver.Peers.{PeerMap, get-erase}
use bserver.Peers.Server.{get-opens}
use bserver.Peering.{server_open, server_on_close}
use bserver.Pool.{IoServiceProvide}
use bserver.Acceptor.Names.{id-write, id-handle_write, id-handle_read_body, id-handle_read_header}
use bserver.Acceptor.{
  PeerHandleServer, run_effects, handled, start_accept, start_session, handle_accept,
  peer_handle_server, before_accept, Event, accepts, reads_header, reads_body, writes_done, writes,
  with_head, with_body, step, run, complete_accept, happens,
}

-- A name of the registry gives a session that was accepted, and whose own name it is. While the process
-- lives an accept waits, for the newest session, which no name gives.
pub record Registered (p : PeerHandleServer) : Type 0 where
  pub named : (k : Bytes) (h : ℕ) → Peers.get k p.peers ≡ some h → (p.sessions h).id ≡ k
  pub accepted : (k : Bytes) (h : ℕ) → Peers.get k p.peers ≡ some h → suc h < p.next_session
  pub waits : p.terminated ≡ false → (j : ℕ) × (p.pending ≡ some j) × (p.next_session ≡ suc j)

get-server_on_close :
    (k : Bytes) (h : ℕ) (s : Session) (m : PeerMap)
    → Peers.get k (server_on_close s m) ≡ some h
    → Peers.get k m ≡ some h
unfolding server_on_close Peers.remove
get-server_on_close k h s m e = ground (arith, get-erase s.id k m)

-- Effects take names out and enter none.
get-run_effects :
    (es : List Effect) (k : Bytes) (h : ℕ) (s : Session) (m : PeerMap)
    → Peers.get k (run_effects es s m) ≡ some h
    → Peers.get k m ≡ some h
unfolding run_effects
get-run_effects [] k h s m e = e
get-run_effects (push_task t ∷ es) k h s m e = get-run_effects es k h s m e
get-run_effects (on_close ∷ es) k h s m e =
    get-server_on_close k h s m (get-run_effects es k h s (server_on_close s m) e)

handled-Registered :
    (h : ℕ) (r : Session × List Effect) (p : PeerHandleServer)
    → r.0.id ≡ (p.sessions h).id
    → Registered p
    → Registered (handled h r p)
unfolding handled
handled-Registered h (s, es) p e v = record {
  named = λ k j f. let old = v.named k j (get-run_effects es k j s p.peers f) in ground arith;
  accepted = λ k j f. v.accepted k j (get-run_effects es k j s p.peers f);
  waits = v.waits;
}

start_accept-Registered :
    (junk : Head) (p : PeerHandleServer)
    → ((k : Bytes) (h : ℕ) → Peers.get k p.peers ≡ some h → (p.sessions h).id ≡ k)
    → ((k : Bytes) (h : ℕ) → Peers.get k p.peers ≡ some h → h < p.next_session)
    → Registered (start_accept junk p)
unfolding start_accept
start_accept-Registered junk p named known = record {
  named = λ k h f. let a = named k h f in let b = known k h f in ground arith;
  accepted = λ k h e. let b = known k h e in omega arith;
  waits = λ e. (p.next_session, refl, refl);
}

module _ (j : ℕ) (address : Bytes) (port : ℕ) (p : PeerHandleServer) where
  -- The name of the session that was accepted.
  client_name : Bytes
  client_name = (server_open address port j (p.sessions j) p.peers).0.id

  get-start_session :
      (k : Bytes)
      → Peers.get k (start_session j address port p).peers
        ≡ (if bytes_eq client_name k then some j else Peers.get k p.peers)
  unfolding start_session client_name handled run_effects Session.start server_open
  get-start_session k = get-opens _ k (some j) p.peers

  sessions-start_session :
      (h : ℕ)
      → ((start_session j address port p).sessions h).id
        ≡ (if j == h then client_name else (p.sessions h).id)
  unfolding start_session client_name handled Session.start server_open
  sessions-start_session h = ground arith

  next-start_session : (start_session j address port p).next_session ≡ p.next_session
  unfolding start_session handled
  next-start_session = refl

  -- `j` is the newest session.
  module _ (newest : p.next_session ≡ suc j) where
    module _ (named : (k : Bytes) (h : ℕ) → Peers.get k p.peers ≡ some h → (p.sessions h).id ≡ k)
        (accepted : (k : Bytes) (h : ℕ)
          → Peers.get k p.peers ≡ some h
          → suc h < p.next_session) where
      named-start_session :
          (k : Bytes) (h : ℕ)
          → Peers.get k (start_session j address port p).peers ≡ some h
          → ((start_session j address port p).sessions h).id ≡ k
      named-start_session k h e = ground (
        arith,
        get-start_session k,
        sessions-start_session h,
        bytes_eq_iff client_name k,
        named k h,
        accepted k h,
      )

      accepted-start_session :
          (k : Bytes) (h : ℕ)
          → Peers.get k (start_session j address port p).peers ≡ some h
          → h < (start_session j address port p).next_session
      accepted-start_session k h e =
          ground (arith, get-start_session k, next-start_session, accepted k h)

-- The handler runs while no accept waits.
handle_accept-Registered :
    (junk : Head) (j : ℕ) (error : Bool) (remote : Option (Bytes × ℕ)) (p : PeerHandleServer)
    → p.next_session ≡ suc j
    → Registered p
    → Registered (handle_accept junk j error remote (record p { pending = none }))
unfolding handle_accept
handle_accept-Registered junk j true remote p newest v =
    start_accept-Registered junk (record p { pending = none }) v.named
      (λ k h e. let a = v.accepted k h e in omega arith)
handle_accept-Registered junk j false none p newest v = record {
  named = v.named;
  accepted = v.accepted;
  waits = λ e. absurd (cc);
}
handle_accept-Registered junk j false (some (address, port)) p newest v =
    let q = record p { pending = none } in
    start_accept-Registered junk (start_session j address port q)
      (named-start_session j address port q newest v.named v.accepted)
      (accepted-start_session j address port q newest v.named v.accepted)

complete_accept-Registered :
    (junk : Head) (error : Bool) (remote : Option (Bytes × ℕ)) (p : PeerHandleServer)
    → p.terminated ≡ false
    → Registered p
    → Registered (complete_accept junk error remote p)
unfolding complete_accept
complete_accept-Registered junk error remote p alive v =
    let (j, at, newest) = v.waits alive in
    rw at (handle_accept-Registered junk j error remote p newest v)

happens-Registered :
    (junk : Head) (e : Event) (p : PeerHandleServer)
    → p.terminated ≡ false
    → Registered p
    → Registered (happens junk e p)
unfolding happens
happens-Registered junk (accepts error remote) p alive v =
    complete_accept-Registered junk error remote p alive v
happens-Registered junk (reads_header error h bytes) p alive v =
    let s = with_head bytes (p.sessions h) in
    handled-Registered h (handle_read_header error s) p (id-handle_read_header error s) v
happens-Registered junk (reads_body error h bytes) p alive v =
    let s = with_body bytes (p.sessions h) in
    handled-Registered h (handle_read_body error s) p (id-handle_read_body error s) v
happens-Registered junk (writes_done error h) p alive v =
    let s = p.sessions h in
    handled-Registered h (handle_write error s) p (id-handle_write error s) v
happens-Registered junk (writes h m) p alive v =
    handled-Registered h (write m (p.sessions h), []) p (id-write m (p.sessions h)) v

step_ended :
    (junk : Head) (e : Event) (p : PeerHandleServer) → p.terminated ≡ true → step junk e p ≡ p
unfolding step
step_ended junk e p ended = simp ended

step-happens :
    (junk : Head) (e : Event) (p : PeerHandleServer)
    → p.terminated ≡ false
    → step junk e p ≡ happens junk e p
unfolding step
step-happens junk e p alive = simp alive

step-Registered :
    (junk : Head) (e : Event) (p : PeerHandleServer) → Registered p → Registered (step junk e p)
step-Registered junk e p v = elim (Bool-cases p.terminated) [
  | inl ended ↦ rw (step_ended junk e p ended) v
  | inr alive ↦ rw (step-happens junk e p alive) (happens-Registered junk e p alive v)
]

-- `remote_endpoint()` throws for a connection that was accepted.
unfoldable pub throws : Event → Bool
throws (accepts false none) = true
throws _ = false

unfoldable pub any_throws : List Event → Bool
unfolding throws
any_throws [] = false
any_throws (e ∷ es) = throws e || any_throws es

terminated-happens :
    (junk : Head) (e : Event) (p : PeerHandleServer)
    → p.terminated ≡ false
    → Registered p
    → (happens junk e p).terminated ≡ throws e
unfolding happens complete_accept handle_accept start_accept start_session handled throws
terminated-happens junk (accepts true remote) p alive v =
    let (j, at, newest) = v.waits alive in rw at alive
terminated-happens junk (accepts false none) p alive v =
    let (j, at, newest) = v.waits alive in rw at refl
terminated-happens junk (accepts false (some (address, port))) p alive v =
    let (j, at, newest) = v.waits alive in rw at alive
terminated-happens junk (reads_header error h bytes) p alive v = alive
terminated-happens junk (reads_body error h bytes) p alive v = alive
terminated-happens junk (writes_done error h) p alive v = alive
terminated-happens junk (writes h m) p alive v = alive

terminated-run :
    (junk : Head) (es : List Event) (p : PeerHandleServer)
    → Registered p
    → (run junk es p).terminated ≡ (p.terminated || any_throws es)
unfolding run any_throws
terminated-run junk [] p v = ground arith
terminated-run junk (e ∷ es) p v = elim (Bool-cases p.terminated) [
  | inl ended ↦
      ap (λ q. (run junk es q).terminated) (step_ended junk e p ended)
      ∙ terminated-run junk es p v
      ∙ ground arith
  | inr alive ↦
      let now = terminated-happens junk e p alive v in
      ap (λ q. (run junk es q).terminated) (step-happens junk e p alive)
      ∙ terminated-run junk es (happens junk e p) (happens-Registered junk e p alive v)
      ∙ ground arith
]

keeps-Registered :
    (junk : Head) (es : List Event) (p : PeerHandleServer)
    → Registered p
    → Registered (run junk es p)
unfolding run
keeps-Registered junk [] p v = v
keeps-Registered junk (e ∷ es) p v =
    keeps-Registered junk es (step junk e p) (step-Registered junk e p v)

nothing : (k : Bytes) (h : ℕ) → ¬ (Peers.get k [] ≡ some h)
unfolding Peers.get lookup
nothing k h e = cc

start-Registered :
    (junk : Head) (pool : IoServiceProvide) → Registered (peer_handle_server junk pool)
unfolding peer_handle_server
start-Registered junk pool =
    start_accept-Registered junk (before_accept junk pool) (λ k h e. absurd (nothing k h e))
      (λ k h e. absurd (nothing k h e))

terminated-peer_handle_server :
    (junk : Head) (pool : IoServiceProvide) → (peer_handle_server junk pool).terminated ≡ false
unfolding peer_handle_server start_accept
terminated-peer_handle_server junk pool = refl

-- Whatever is accepted, read, written and closed, in any order and with any errors: in the registry of
-- clients a name gives only a session that was accepted before the newest one, and whose own name it is;
-- and while the process lives an accept waits, for the newest session. The process ends exactly if
-- `remote_endpoint()` throws for a connection that was accepted.
pub run-Registered :
    (junk : Head) (pool : IoServiceProvide) (es : List Event)
    → let p = run junk es (peer_handle_server junk pool) in
      Registered p × (p.terminated ≡ any_throws es)
run-Registered junk pool es =
    let v = start-Registered junk pool in
    (
      keeps-Registered junk es (peer_handle_server junk pool) v,
      terminated-run junk es (peer_handle_server junk pool) v
          ∙ rw (terminated-peer_handle_server junk pool) refl,
    )
