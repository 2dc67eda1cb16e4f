-- ===== src/Logic/Pushed.antt =====
-- What httpclient/server_service_response_responser.cpp writes, and to which connections.
use bserver.Base.{
  ℕ, suc, ◌+◌, ◌≡◌, refl, sym, ◌∙◌, true, false, List, [], ◌∷◌, ◌++◌, Bytes, text, is_empty, ◌||◌,
  Bool-cases, ◌⊎◌, inl, inr, arith, none, some,
}
use bserver.Message.{MessageFormat}
use bserver.Session.{Session, write}
use bserver.Peers.{SessionPtr}
use bserver.Peers.Client.{ClientMap, listed, get, fix_get, name, relist, no_clients}
use bserver.Peers.Pick.{Reach, Reach-Agree, Finds, Agree-Finds}
use bserver.Peers.Registry.{Agree, get-Agree}
use bserver.Proto.{Env}
use bserver.World.{World, update, write_to, count_send}
use bserver.Logic.Dispatch.{dispatch_to_server, write_found, used_rand}
use bserver.Logic.Push.{push_all, push_message, push_parser, cid, service_id, service_data}

-- Sessions of a client, with the addresses of their servers, get their messages in turn: one message
-- for each session whose server has a live connection, written to one such connection, and nothing for
-- the others. The states of all connections before and after, and the number of messages.
pub data Delivered (env : Env) (document : Bytes) (m : ClientMap)
    : List (Bytes × Bytes) → (before after : ℕ → Session) → ℕ → Type 0 where
  all_done : {f : ℕ → Session} → Delivered env document m [] f f 0
  misses :
      {sessid server_addr : Bytes} {l : List (Bytes × Bytes)} {f g : ℕ → Session} {n : ℕ}
      → ((i : ℕ) → fix_get (name (text "server:" ++ server_addr) i) m ≡ none)
      → Delivered env document m l f g n
      → Delivered env document m ((sessid, server_addr) ∷ l) f g n
  gets :
      {sessid server_addr : Bytes} {l : List (Bytes × Bytes)} {f g : ℕ → Session} {n : ℕ} (i h : ℕ)
      → fix_get (name (text "server:" ++ server_addr) i) m ≡ some h
      → Delivered env document m l (update f h (write (push_message env document sessid) (f h))) g n
      → Delivered env document m ((sessid, server_addr) ∷ l) f g (suc n)

clients_of-write_found :
    (p : SessionPtr) (m : MessageFormat) (w : World) → (write_found p m w).clients ≡ w.clients
unfolding write_found write_to count_send
clients_of-write_found none m w = refl
clients_of-write_found (some h) m w = refl

clients_of-dispatch :
    (a : Bytes) (m : MessageFormat) (w : World)
    → (dispatch_to_server (text "server:" ++ a) m w).clients
      ≡ (get (w.rand w.rand_calls) (text "server:" ++ a) w.clients).1
unfolding dispatch_to_server
clients_of-dispatch a m w = clients_of-write_found _ m _

fix_get-get : (r : ℕ) (s k : Bytes) (m : ClientMap) → fix_get k (get r s m).1 ≡ fix_get k m
unfolding get
fix_get-get r s k m =
    let same : fix_get k (relist s (listed s m) m) ≡ fix_get k m = unfold fix_get relist in refl in
    ground (arith, same)

-- What one message to a server does to the connections and the count.
abbrev Sent : Bytes → MessageFormat → (before after : World) → Type 0
Sent s m w w' =
    (((i : ℕ) → fix_get (name s i) w.clients ≡ none)
      × (w'.sessions ≡ w.sessions)
      × (w'.send_count ≡ w.send_count))
    ⊎ ((i : ℕ) × (h : ℕ) × (fix_get (name s i) w.clients ≡ some h)
        × (w'.sessions ≡ update w.sessions h (write m (w.sessions h)))
        × (w'.send_count ≡ suc w.send_count))

write_found-Sent :
    (s : Bytes) (m : MessageFormat) (w : World) (clients : ClientMap) (calls : ℕ) (p : SessionPtr)
    → Finds s w.clients p
    → Sent s m w (write_found p m (record w { clients = clients; rand_calls = calls }))
unfolding write_found write_to count_send
write_found-Sent s m w clients calls p (inl (missing, e)) = rw e (inl (missing, refl, refl))
write_found-Sent s m w clients calls p (inr (i, h, e, f)) = rw e (inr (i, h, f, refl, refl))

dispatch-Sent :
    (a : Bytes) (m : MessageFormat) (w : World)
    → Agree w.clients
    → Sent (text "server:" ++ a) m w (dispatch_to_server (text "server:" ++ a) m w)
unfolding dispatch_to_server
dispatch-Sent a m w v =
    let s = text "server:" ++ a in
    let r = w.rand w.rand_calls in
    write_found-Sent s m w (get r s w.clients).1 (used_rand (listed s w.clients) w.rand_calls)
      (get r s w.clients).0 (Agree-Finds w.clients r s (listed s w.clients) refl v)

-- One message more, before the messages of the other sessions.
Sent-Delivered :
    (env : Env) (document u a : Bytes) (c : ClientMap) (l : List (Bytes × Bytes)) (w w' : World)
    (after : ℕ → Session) (n count : ℕ)
    → ((k : Bytes) → fix_get k w.clients ≡ fix_get k c)
    → Sent (text "server:" ++ a) (push_message env document u) w w'
    → Delivered env document c l w'.sessions after n
    → count ≡ w'.send_count + n
    → (k : ℕ) × Delivered env document c ((u, a) ∷ l) w.sessions after k
      × (count ≡ w.send_count + k)
Sent-Delivered env document u a c l w w' after n count same (inl (missing, f, e)) rest total = (
  n,
  misses (λ i. sym (same (name (text "server:" ++ a) i)) ∙ missing i) (rw f at rest),
  omega arith,
)
Sent-Delivered env document u a c l w w' after n count same (inr (i, h, found, f, e)) rest total = (
  suc n,
  gets i h (sym (same (name (text "server:" ++ a) i)) ∙ found) (rw f at rest),
  omega arith,
)

-- `c` is the registry before the loop, whose names give the same sessions all along.
push_all-Delivered :
    (env : Env) (document : Bytes) (c : ClientMap) (l : List (Bytes × Bytes)) (w : World)
    → Agree w.clients
    → ((k : Bytes) → fix_get k w.clients ≡ fix_get k c)
    → let w' = push_all env document l w in
      (n : ℕ) × Delivered env document c l w.sessions w'.sessions n
      × (w'.send_count ≡ w.send_count + n)
unfolding push_all
push_all-Delivered env document c [] w v same = (0, all_done, omega arith)
push_all-Delivered env document c ((u, a) ∷ l) w v same =
    let s = text "server:" ++ a in
    let r = w.rand w.rand_calls in
    let m = push_message env document u in
    let w' = dispatch_to_server s m w in
    let moved = clients_of-dispatch a m w in
    let (n, rest, count) =
      push_all-Delivered env document c l w' (rw moved (get-Agree w.clients r s v))
        (λ k. rw moved (fix_get-get r s k w.clients) ∙ same k) in
    Sent-Delivered env document u a c l w w' _ n _ same (dispatch-Sent a m w v) rest count

-- Where all connections were made under fixed names, or through `set` while the name that it made up
-- had no session: an answer with a client, a service and data is written for the sessions of the client
-- in their order, once for each session whose server has a live connection, to one such connection; the
-- other sessions get nothing, no other connection is touched, and exactly the messages written are
-- counted. An answer without one of the three changes nothing.
pub push_parser_delivers :
    (env : Env) (document : Bytes) (w : World)
    → Reach no_clients w.clients
    → let w' = (push_parser env document w).1 in
      let l = env.sessions_of (cid env document) in
      let missing =
        is_empty (cid env document)
        || is_empty (service_id env document)
        || is_empty (service_data env document) in
      ((missing ≡ true) × (w' ≡ w))
      ⊎ ((missing ≡ false)
          × (n : ℕ) × Delivered env document w.clients l w.sessions w'.sessions n
          × (w'.send_count ≡ w.send_count + n))
unfolding push_parser
push_parser_delivers env document w h =
    elim (Bool-cases (
      is_empty (cid env document)
      || is_empty (service_id env document)
      || is_empty (service_data env document))) [
        | inl e ↦ rw e (inl (refl, refl))
        | inr e ↦
            let (n, sent, count) =
              push_all-Delivered env document w.clients (env.sessions_of (cid env document)) w
                (Reach-Agree h) (λ k. refl) in
            rw e (inr (refl, n, sent, count))
      ]
