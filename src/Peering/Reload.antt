-- ===== src/Peering/Reload.antt =====
-- What `servlist_callback` of src/configwrap.cpp leaves in the registry.
use bserver.Base.{ℕ, ◌<◌, ◌≡◌, ◌∙◌, false, List, [], ◌∷◌, Bytes, some, inl, inr, arith}
use bserver.Base.Maps.{lookup}
use bserver.Peers.Client.{fix_get, name}
use bserver.Config.{ServCfg, ServerMap, nat_key}
use bserver.Config.Servers.{first_server, lookup-flush_servers}
use bserver.Peering.{Outside, Net, post_write}
use bserver.Peering.Heart.{beat}
use bserver.Peering.Held.{beat_keeps, beat_connects}
use bserver.Peering.Loops.{Keeps, for_servers-Connects, for_servers}
use bserver.Peering.Callback.{connect_missing, servlist_callback}

-- The heartbeat changes the registry in the same way; it also posts keepalives.
clients_of-connect_missing :
    (out : Outside) (id : Bytes) (i : ℕ) (net : Net)
    → (connect_missing out id i net).clients ≡ (beat out id i net).clients
unfolding connect_missing beat post_write
clients_of-connect_missing out id i net = ground arith

connect_missing-Keeps : (out : Outside) (id : Bytes) → Keeps (connect_missing out id)
connect_missing-Keeps out id j i h net e =
    rw (clients_of-connect_missing out id i net) (beat_keeps out id j i h net e)

missing_connects :
    (out : Outside) (id a b c : Bytes) (n : ℕ) (net : Net)
    → ((h : ℕ) → out.refused h ≡ false)
    → out.split id ≡ a ∷ b ∷ c ∷ []
    → (h : ℕ) × (fix_get (name id n) (connect_missing out id n net).clients ≡ some h)
missing_connects out id a b c n net up parts =
    rw (clients_of-connect_missing out id n net) (beat_connects out id a b c n net up parts)

no_first : (k : ℕ) (id : Bytes) → ¬ (first_server k [] ≡ some id)
unfolding first_server
no_first k id e = cc

-- When no connection fails, a list of servers that came in becomes the map of servers, and the callback
-- leaves a session under each of the `connect_count` names of every server that is the first of the
-- list with its id, and whose name has three parts.
pub servlist_callback_lem :
    (out : Outside) (connect_count : ℕ) (cs : List ServCfg) (servers : ServerMap) (net : Net)
    (k i : ℕ) (id a b c : Bytes)
    → ((h : ℕ) → out.refused h ≡ false)
    → first_server k cs ≡ some id
    → out.split id ≡ a ∷ b ∷ c ∷ []
    → i < connect_count
    → (new : ServerMap) × (after : Net) × (servlist_callback out connect_count cs servers net
        ≡ some (new, after))
      × (lookup k new ≡ some id)
      × (h : ℕ) × (fix_get (name id i) after.clients ≡ some h)
unfolding servlist_callback
servlist_callback_lem out count cs servers net k i id a b c up first parts less =
    elim (lookup-flush_servers k cs servers) [
      | inl (nothing, e) ↦ absurd (no_first k id (rw nothing at first))
      | inr (new, flushed, found) ↦
          let listed = found ∙ first in
          let (h, held) =
            for_servers-Connects (connect_missing out) (connect_missing-Keeps out) count new net k i
              id (λ n m. missing_connects out id a b c n m up parts) listed less in
          (new, for_servers (connect_missing out) count new net, ground arith, listed, h, held)
    ]
