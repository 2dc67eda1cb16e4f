-- ===== src/Peering/Registered.antt =====
-- What the registry of src/peer_handle_map.cpp holds after src/peer_handle_client.cpp made a connection.
use bserver.Base.{
  ℕ, ◌≡◌, refl, true, false, Bytes, is_empty, Bool-cases, bytes_eq, bytes_eq_refl, none, some,
  arith, if◌then◌else◌, inl, inr,
}
use bserver.Message.{Status, done, failed}
use bserver.Session
use bserver.Session.{Session, new_session}
use bserver.Peers.{get-insert, get-erase}
use bserver.Peers.Client
use bserver.Peers.Client.{ClientMap, fix_get, name}
use bserver.Peering.{
  Outside, Net, post_write, leave, client_on_close, handle_connect_fix_id, open_fixed, run_effects,
  mark_read, registe, connect_to,
}

fix_get-fix_set :
    (sid k j : Bytes) (h : ℕ) (m : ClientMap)
    → bytes_eq k j ≡ false
    → fix_get j (Client.fix_set sid k (some h) m).1 ≡ fix_get j m
unfolding Client.fix_set fix_get Client.enter Client.relist
fix_get-fix_set sid k j h m e = ground (arith, get-insert k j (some h) m.map)

fix_get-fix_set_same :
    (sid k : Bytes) (h : ℕ) (m : ClientMap)
    → is_empty sid ≡ false
    → is_empty k ≡ false
    → (Client.fix_set sid k (some h) m).0 ≡ done
      × (fix_get k (Client.fix_set sid k (some h) m).1 ≡ some h)
unfolding Client.fix_set fix_get Client.enter Client.relist
fix_get-fix_set_same sid k h m a b = ground (arith, get-insert k k (some h) m.map, bytes_eq_refl k)

pub fix_get-remove :
    (sid k j : Bytes) (m : ClientMap)
    → fix_get j (Client.remove sid k m) ≡ (if bytes_eq k j then none else fix_get j m)
unfolding Client.remove fix_get Client.relist
fix_get-remove sid k j m = get-erase k j m.map

-- The registry after `start`, for both values that `open` returns.
after_open : Status → (sid k : Bytes) → ClientMap → ClientMap
after_open done sid k m = m
after_open failed sid k m = Client.remove sid k m

connect-clients :
    (opened : Status) (t : Session) (m : ClientMap)
    → let (res, u, es) = Session.handle_connect t false (λ v. (v, opened)) in
      run_effects es u m ≡ after_open opened t.server_id t.id m
unfolding Session.handle_connect Session.start Session.close run_effects leave after_open
connect-clients done t m = refl
connect-clients failed t m = refl

refuse-clients :
    (opened : Status) (t : Session) (m : ClientMap)
    → let (res, u, es) = Session.handle_connect t true (λ v. (v, opened)) in
      run_effects es u m ≡ Client.remove t.server_id t.id m
unfolding Session.handle_connect Session.close run_effects leave
refuse-clients opened t m = refl

pub registe-clients :
    (out : Outside) (res : Status) (h : ℕ) (net : Net)
    → (registe out res h net).clients ≡ net.clients
unfolding registe post_write
registe-clients out failed h net = refl
registe-clients out done h net = refl

refused-clients :
    (sid k : Bytes) (h : ℕ) (s : Session) (m : ClientMap)
    → (handle_connect_fix_id true sid k h s m).2 ≡ Client.remove sid k m
unfolding handle_connect_fix_id mark_read
refused-clients sid k h s m = refuse-clients _ _ m

accepted-clients :
    (sid k : Bytes) (h : ℕ) (s : Session) (m : ClientMap)
    → (handle_connect_fix_id false sid k h s m).2
      ≡ after_open (Client.fix_set sid k (some h) m).0 sid k (Client.fix_set sid k (some h) m).1
unfolding handle_connect_fix_id mark_read open_fixed
accepted-clients sid k h s m = connect-clients _ _ _

registe_step :
    (out : Outside) (sid k : Bytes) (net : Net)
    → (connect_to out sid k net).clients
      ≡ (handle_connect_fix_id
          (out.refused net.next_session)
          sid
          k
          net.next_session
          (new_session out.junk)
          net.clients).2
unfolding connect_to
registe_step out sid k net = registe-clients out _ net.next_session _

after_open-other :
    (opened : Status) (sid k j : Bytes) (m : ClientMap)
    → bytes_eq k j ≡ false
    → fix_get j (after_open opened sid k m) ≡ fix_get j m
unfolding after_open
after_open-other done sid k j m e = refl
after_open-other failed sid k j m e = ground (arith, fix_get-remove sid k j m)

pub connect_to-other :
    (out : Outside) (sid k j : Bytes) (net : Net)
    → bytes_eq k j ≡ false
    → fix_get j (connect_to out sid k net).clients ≡ fix_get j net.clients
connect_to-other out sid k j net e =
    let h = net.next_session in
    let s = new_session out.junk in
    let m = net.clients in
    elim (Bool-cases (out.refused h)) [
      | inl t ↦
          cc (
            t,
            registe_step out sid k net,
            refused-clients sid k h s m,
            fix_get-remove sid k j m,
            e,
          )
      | inr t ↦ cc (
        t,
        registe_step out sid k net,
        accepted-clients sid k h s m,
        after_open-other (Client.fix_set sid k (some h) m).0 sid k j
            (Client.fix_set sid k (some h) m).1 e,
        fix_get-fix_set sid k j h m e,
      )
    ]

pub connect_to-same :
    (out : Outside) (sid k : Bytes) (net : Net)
    → out.refused net.next_session ≡ false
    → is_empty sid ≡ false
    → is_empty k ≡ false
    → fix_get k (connect_to out sid k net).clients ≡ some net.next_session
unfolding after_open
connect_to-same out sid k net t a b =
    let h = net.next_session in
    let s = new_session out.junk in
    let m = net.clients in
    let (opened, found) = fix_get-fix_set_same sid k h m a b in
    let m' = (Client.fix_set sid k (some h) m).1 in
    let kept : after_open done sid k m' ≡ m' = refl in
    cc (t, opened, found, kept, registe_step out sid k net, accepted-clients sid k h s m)

-- A session that closes takes its name out of the registry, also when a new connection has been made
-- under that name in the meantime: the new session was found under the name, and is not any more.
pub stale_close_lem :
    (out : Outside) (sid k : Bytes) (net : Net) (old : Session)
    → out.refused net.next_session ≡ false
    → is_empty sid ≡ false
    → is_empty k ≡ false
    → old.id ≡ k
    → (fix_get k (connect_to out sid k net).clients ≡ some net.next_session)
      × (fix_get k (client_on_close out false old (connect_to out sid k net)).clients ≡ none)
unfolding client_on_close leave
stale_close_lem out sid k net old up a b e = (
  connect_to-same out sid k net up a b,
  cc (e, bytes_eq_refl k, fix_get-remove old.server_id old.id k (connect_to out sid k net).clients),
)
