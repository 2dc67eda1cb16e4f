-- ===== src/Peering/Opened.antt =====
-- What the start of src/configwrap.cpp leaves in the registry of src/peer_handle_map.cpp, where the names
-- of the connections are made up one after another.
use bserver.Base.{
  is_empty, ℕ, zero, suc, ◌+◌, ◌≤◌, ◌<◌, ◌≡◌, refl, ap, ◌∙◌, false, [], ◌∷◌, ◌++◌, Bytes, text,
  decimal, some, arith,
}
use bserver.Base.Maps.{bytes_key, insert}
use bserver.Message.{Status, done, failed}
use bserver.Session
use bserver.Session.{Session, new_session}
use bserver.Peering.{Outside, Net, open_named, run_effects, handle_connect_named, connect_named}
use bserver.Peering.Loops.{for_names, for_servers}
use bserver.Peering.Callback.{connect_first, init_server_connection}
use bserver.Peering.Registered.{registe-clients}
use bserver.Peers.Client
use bserver.Peers.Client.{ClientMap, no_clients, name, fix_get}
use bserver.Peers.Opened.{Opened, set-enters, entered-Opened, empty-Opened}

opened-clients :
    (opened : Status) (s t : Session) (m : ClientMap)
    → opened ≡ done
    → let (res, u, es) = Session.handle_connect s false (λ v. (t, opened)) in run_effects es u m ≡ m
unfolding Session.handle_connect Session.start run_effects
opened-clients done s t m e = refl
opened-clients failed s t m e = absurd (cc)

open_named-lem :
    (count port h : ℕ) (a : Bytes) (s : Session) (m : ClientMap)
    → is_empty (Client.set count (text "server:" ++ (a ++ (text ":" ++ decimal port))) (some h) m).0
      ≡ false
    → ((open_named count a port h s m).0 ≡ done)
      × ((open_named count a port h s m).2
          ≡ (Client.set count (text "server:" ++ (a ++ (text ":" ++ decimal port))) (some h) m).1)
unfolding open_named
open_named-lem count port h a s m e = ground arith

-- The name of the server at the other end.
abbrev pub remote_name : Bytes → ℕ → Bytes
remote_name a port = text "server:" ++ (a ++ (text ":" ++ decimal port))

nonempty_name : (s : Bytes) (i : ℕ) → is_empty (name s i) ≡ false
unfolding name
nonempty_name [] i = refl
nonempty_name (x ∷ s) i = refl

handle_connect_named-clients :
    (count port h : ℕ) (a : Bytes) (s : Session) (m : ClientMap)
    → (open_named count a port h s m).0 ≡ done
    → (handle_connect_named false count a port h s m).2 ≡ (open_named count a port h s m).2
unfolding handle_connect_named
handle_connect_named-clients count port h a s m e =
    opened-clients (open_named count a port h s m).0 s _ _ e

connect_named_step :
    (out : Outside) (count : ℕ) (net : Net)
    → let h = net.next_session in
      (connect_named out count net).clients
      ≡ (handle_connect_named
          (out.refused h)
          count
          (out.remote h).0
          (out.remote h).1
          h
          (new_session out.junk)
          net.clients).2
unfolding connect_named
connect_named_step out count net = registe-clients out _ net.next_session _

connect_named-enters :
    (out : Outside) (count c port : ℕ) (a : Bytes) (net : Net)
    → out.refused net.next_session ≡ false
    → out.remote net.next_session ≡ (a, port)
    → Opened (remote_name a port) c net.clients
    → c < count
    → (connect_named out count net).clients.map
      ≡ insert (name (remote_name a port) c) (some net.next_session) net.clients.map
connect_named-enters out count c port a net up remote o less =
    let (named, entered) =
      set-enters (remote_name a port) count c net.next_session net.clients o less in
    let (opened, clients) =
      open_named-lem count port net.next_session a (new_session out.junk) net.clients
        (ap is_empty named ∙ nonempty_name (remote_name a port) c) in
    let all : (connect_named out count net).clients
        ≡ (Client.set count (remote_name a port) (some net.next_session) net.clients).1 =
      connect_named_step out count net
      ∙ rw (up, remote)
          (handle_connect_named-clients count port net.next_session a (new_session out.junk)
              net.clients opened
            ∙ clients) in
    ap (λ m. m.map) all ∙ entered

module _ (out : Outside) (count port : ℕ) (a : Bytes) (up : (h : ℕ) → out.refused h ≡ false)
    (remote : (h : ℕ) → out.remote h ≡ (a, port)) (id x y z : Bytes)
    (parts : out.split id ≡ x ∷ y ∷ z ∷ []) where
  first-Opened :
      (c : ℕ) (net : Net)
      → Opened (remote_name a port) c net.clients
      → c < count
      → Opened (remote_name a port) (suc c) (connect_first out count (out.split id) net).clients
  unfolding connect_first
  first-Opened c net o less =
      rw (connect_first, parts)
        (entered-Opened (remote_name a port) c net.next_session net.clients
          (connect_named out count net).clients
          (connect_named-enters out count c port a net (up net.next_session)
            (remote net.next_session) o less)
          o)

  names-Opened :
      (rounds c n : ℕ) (net : Net)
      → Opened (remote_name a port) c net.clients
      → n ≡ rounds + c
      → n ≤ count
      → Opened
          (remote_name a port)
          n
          (for_names (λ i. connect_first out count (out.split id)) rounds c net).clients
  unfolding for_names
  names-Opened zero c n net o e fits = let same : n ≡ c = omega arith in rw same o
  names-Opened (suc rounds) c n net o e fits =
      names-Opened rounds (suc c) n _ (first-Opened c net o (omega arith)) (omega arith) fits

  -- After a start with one server, whose name has three parts, and whose connections are all accepted
  -- by one address, the registry, which was empty, has a session under each of the `connect_count` names
  -- that are made up from that address, from 0 on.
  pub init_server_connection_lem :
      (k i : ℕ) (net : Net)
      → net.clients ≡ no_clients
      → i < count
      → (h : ℕ) × (fix_get
            (name (remote_name a port) i)
            (init_server_connection out count ((k, id) ∷ []) net).clients
          ≡ some h)
  unfolding init_server_connection for_servers
  init_server_connection_lem k i net fresh less =
      (names-Opened count 0 count net (rw fresh (empty-Opened (remote_name a port))) (omega arith)
          (omega arith)).held
        i (omega arith)
