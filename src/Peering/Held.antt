-- ===== src/Peering/Held.antt =====
-- What a round of src/heart_task_thread.cpp leaves in the registry of src/peer_handle_map.cpp.
use bserver.Base.{
  ℕ, ◌<◌, ◌≡◌, refl, false, List, [], ◌∷◌, ◌++◌, Bytes, is_empty, decimal, bytes_eq, bytes_eq_iff,
  none, some, arith, inl, inr, Option-cases,
}
use bserver.Base.Maps.{lookup}
use bserver.Peers.Client.{ClientMap, fix_get, name}
use bserver.Config.{ServerMap, nat_key}
use bserver.Peering.{Outside, Net, post_write}
use bserver.Peering.Heart.{connect_parts, beat, heart_round}
use bserver.Peering.Loops.{for_servers-keeps, for_servers-Connects}
use bserver.Peering.Registered.{connect_to-other, connect_to-same}

-- A name that is held differs from one that is not.
differs :
    (k j : Bytes) (h : ℕ) (m : ClientMap)
    → fix_get k m ≡ none
    → fix_get j m ≡ some h
    → bytes_eq k j ≡ false
differs k j h m a b = ground (arith, bytes_eq_iff k j)

nonempty_joined : (a b : Bytes) (c : ℕ) → is_empty (a ++ (c ∷ b)) ≡ false
nonempty_joined [] b c = refl
nonempty_joined (x ∷ a) b c = refl

nonempty-name : (id : Bytes) (i : ℕ) → is_empty (name id i) ≡ false
unfolding name
nonempty-name id i = nonempty_joined id (decimal i) 58

connect_parts-other :
    (out : Outside) (parts : List Bytes) (k j : Bytes) (net : Net)
    → bytes_eq k j ≡ false
    → fix_get j (connect_parts out parts k net).clients ≡ fix_get j net.clients
unfolding connect_parts
connect_parts-other out [] k j net e = refl
connect_parts-other out (a ∷ []) k j net e = refl
connect_parts-other out (a ∷ b ∷ []) k j net e = refl
connect_parts-other out (a ∷ b ∷ c ∷ []) k j net e = connect_to-other out _ k j net e
connect_parts-other out (a ∷ b ∷ c ∷ d ∷ r) k j net e = refl

beat_of_held :
    (out : Outside) (id : Bytes) (i g : ℕ) (net : Net)
    → fix_get (name id i) net.clients ≡ some g
    → (beat out id i net).clients ≡ net.clients
unfolding beat post_write
beat_of_held out id i g net e = ground arith

pub beat_of_missing :
    (out : Outside) (id : Bytes) (i : ℕ) (net : Net)
    → fix_get (name id i) net.clients ≡ none
    → beat out id i net ≡ connect_parts out (out.split id) (name id i) net
unfolding beat
beat_of_missing out id i net e = ground arith

pub beat_keeps :
    (out : Outside) (id j : Bytes) (i h : ℕ) (net : Net)
    → fix_get j net.clients ≡ some h
    → fix_get j (beat out id i net).clients ≡ some h
beat_keeps out id j i h net e = elim (Option-cases (fix_get (name id i) net.clients)) [
  | inl missing ↦
      let apart = differs (name id i) j h net.clients missing e in
      cc (
        e,
        beat_of_missing out id i net missing,
        connect_parts-other out (out.split id) (name id i) j net apart,
      )
  | inr (g, held) ↦ cc (e, beat_of_held out id i g net held)
]

pub beat_connects :
    (out : Outside) (id a b c : Bytes) (i : ℕ) (net : Net)
    → ((h : ℕ) → out.refused h ≡ false)
    → out.split id ≡ a ∷ b ∷ c ∷ []
    → (h : ℕ) × (fix_get (name id i) (beat out id i net).clients ≡ some h)
unfolding connect_parts
beat_connects out id a b c i net up parts = elim (Option-cases (fix_get (name id i) net.clients)) [
  | inl missing ↦ (
    net.next_session,
    rw (beat_of_missing out id i net missing) (
        rw parts (
          connect_to-same out _ (name id i) net (up net.next_session) (nonempty_joined a _ 58)
            (nonempty-name id i))),
  )
  | inr (g, held) ↦ (g, beat_keeps out id (name id i) i g net held)
]

-- A round of the heartbeat leaves every session that is registered under its name, whatever the
-- servers are and whichever connections fail.
pub heart_round-keeps :
    (out : Outside) (connect_count : ℕ) (servers : ServerMap) (net : Net) (j : Bytes) (h : ℕ)
    → fix_get j net.clients ≡ some h
    → fix_get j (heart_round out connect_count servers net).clients ≡ some h
unfolding heart_round
heart_round-keeps out = for_servers-keeps (beat out) (beat_keeps out)

-- When no connection fails, and the name of a server of the map has three parts, a round of the
-- heartbeat leaves a session under each of the `connect_count` names of that server.
pub heart_round_lem :
    (out : Outside) (connect_count : ℕ) (servers : ServerMap) (net : Net) (k i : ℕ)
    (id a b c : Bytes)
    → ((h : ℕ) → out.refused h ≡ false)
    → lookup k servers ≡ some id
    → out.split id ≡ a ∷ b ∷ c ∷ []
    → i < connect_count
    → (h : ℕ) × (fix_get (name id i) (heart_round out connect_count servers net).clients ≡ some h)
unfolding heart_round
heart_round_lem out count servers net k i id a b c up found parts less =
    for_servers-Connects (beat out) (beat_keeps out) count servers net k i id
      (λ n m. beat_connects out id a b c n m up parts) found less
