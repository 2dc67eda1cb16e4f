-- ===== src/Peers.antt =====
-- include/peer_handle_map.h and src/peer_handle_map.cpp: the live connections by name. A session is
-- known by a number, its handle; a null `shared_ptr` is `none`. Every member holds `mutex_` for its
-- whole body, so members are functions from state to state.
pub mod Client
pub mod Names
pub mod Registry
pub mod Pick
pub mod Filled
pub mod Holes
pub mod Opened
mod Tests
pub mod Server
use bserver.Base.{
  ℕ, zero, suc, ◌+◌, Bool, true, false, List, [], ◌∷◌, ◌++◌, Bytes, Option, none, some, contains,
  bytes_eq, ◌≡◌, refl, arith, if◌then◌else◌,
}
use bserver.Base.Maps.{Map, bytes_key, lookup, insert, erase, lookup-insert, lookup-erase}

abbrev pub SessionPtr : Type 0
SessionPtr = Option ℕ

abbrev pub PeerMap : Type 0
PeerMap = Map Bytes SessionPtr

-- The keys that hold `id` somewhere.
unfoldable pub find_matched : Bytes → PeerMap → ℕ
find_matched id [] = 0
find_matched id ((k, p) ∷ m) =
    let rest = find_matched id m in if contains id k then suc rest else rest

-- The members of `peer_handle_map`, which `peer_handle_map_for_server` inherits.
unfoldable pub set : Bytes → SessionPtr → PeerMap → Bytes × PeerMap
set id p m = elim (lookup id m) [
  | none ↦ (id, insert id p m)
  | some old ↦ (id, insert id p (erase id m))
]

unfoldable pub get : Bytes → PeerMap → SessionPtr
get id m = elim (lookup id m) [ none ↦ none | some p ↦ p ]

-- `erase(id)`
unfoldable pub remove : Bytes → PeerMap → PeerMap
remove id m = erase id m

pub get-insert :
    (k j : Bytes) (p : SessionPtr) (m : PeerMap)
    → get j (insert k p m) ≡ (if bytes_eq k j then p else get j m)
unfolding get
get-insert k j p m = ground (arith, lookup-insert k j p m)

pub get-erase :
    (k j : Bytes) (m : PeerMap) → get j (erase k m) ≡ (if bytes_eq k j then none else get j m)
unfolding get
get-erase k j m = ground (arith, lookup-erase k j m)
