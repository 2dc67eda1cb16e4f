-- ===== src/Peers/Client.antt =====
-- The connections to other servers, `peer_handle_map_for_client` of include/peer_handle_map.h: the
-- sessions by name, and for each server the list of the names that belong to it.
-- `connect_count` is the configured number of connections to a server, and `r` what `rand()` returns.
use bserver.Base.{
  ℕ, zero, suc, ◌%◌, ◌≡◌, refl, List, [], ◌∷◌, ◌++◌, ◌||◌, Bytes, text, is_empty, bytes_eq, decimal,
  none, some, get_elem?, length, leb, ◌==◌, is_some, if◌then◌else◌,
}
use bserver.Base.Maps.{Map, bytes_key, lookup, insert, erase}
use bserver.Message.{Status, done, failed}
use bserver.Peers
use bserver.Peers.{SessionPtr, PeerMap, find_matched}

pub record ClientMap : Type 0 where
  pub map : PeerMap
  pub client_list : Map Bytes (List Bytes)

abbrev pub no_clients : ClientMap
no_clients = record { map = []; client_list = [] }

-- `ss << id << ":" << i`
unfoldable pub name : Bytes → ℕ → Bytes
name id i = id ++ (text ":" ++ decimal i)

-- What `client_list_[id]` holds; a missing key counts as an empty vector, which the call enters.
unfoldable pub listed : Bytes → ClientMap → List Bytes
listed id m = elim (lookup id m.client_list) [ none ↦ [] | some l ↦ l ]

-- `client_list_[id] = l`, for a vector that was changed in place.
unfoldable pub relist : Bytes → List Bytes → ClientMap → ClientMap
relist id l m = record m { client_list = insert id l m.client_list }

-- `map_[k] = p`
unfoldable pub enter : Bytes → SessionPtr → ClientMap → ClientMap
enter k p m = record m { map = insert k p m.map }

-- `map_[k]` as a value: a missing key is entered with a null pointer.
unfoldable pub index : Bytes → ClientMap → SessionPtr × ClientMap
unfolding enter
index k m = elim (lookup k m.map) [ none ↦ (none, enter k none m) | some p ↦ (p, m) ]

-- The loop that looks for a free name: `rounds` are left, from `i` on; `taken` is the name that was
-- found in use before the loop, and the one that goes on the list.
unfoldable pub fill_hole : ℕ → ℕ → Bytes → Bytes → SessionPtr → ClientMap → Bytes × ClientMap
fill_hole zero i id taken p m = ([], m)
fill_hole (suc rounds) i id taken p m =
    let (q, m') = index (name id i) m in
    let rest = fill_hole rounds (suc i) id taken p m' in
    if is_some q
    then rest
    else (let m'' = enter (name id i) p m' in
        (name id i, relist id (listed id m'' ++ (taken ∷ [])) m''))

-- `set(id, session_ptr)`; the empty name says that nothing was saved.
unfoldable pub set : ℕ → Bytes → SessionPtr → ClientMap → Bytes × ClientMap
set connect_count id p m =
    let count = find_matched id m.map in
    let taken = name id count in
    if leb connect_count count
    then ([], m)
    else (let (q, m') = index taken m in
        if is_some q
        then fill_hole count 0 id taken p m'
        else (let m'' = enter taken p m' in (taken, relist id (listed id m'' ++ (taken ∷ [])) m'')))

-- The loop over a vector that erases the first element equal to `id`.
unfoldable pub remove_first : Bytes → List Bytes → List Bytes
remove_first id [] = []
remove_first id (n ∷ l) = let rest = remove_first id l in if bytes_eq n id then l else n ∷ rest

unfoldable pub fix_set : Bytes → Bytes → SessionPtr → ClientMap → Status × ClientMap
unfolding enter relist listed remove_first
fix_set server_id id p m =
    if is_empty server_id || is_empty id
    then (failed, m)
    else (let m' = enter id p m in
        (done, relist server_id (remove_first id (listed server_id m') ++ (id ∷ [])) m'))

-- `random_num(count)`
unfoldable pub random_num : ℕ → ℕ → ℕ
random_num r count = if count == 0 then 0 else r % count

unfoldable pub get : ℕ → Bytes → ClientMap → SessionPtr × ClientMap
unfolding listed relist random_num
get r id m =
    let l = listed id m in
    let m' = relist id l m in
    elim (get_elem? l (random_num r (length l))) [
      | none ↦ (none, m')
      | some n ↦ (Peers.get n m.map, m')
    ]

unfoldable pub fix_get : Bytes → ClientMap → SessionPtr
fix_get id m = Peers.get id m.map

unfoldable pub simple_get : ℕ → ℕ → Bytes → ClientMap → SessionPtr
unfolding random_num name
simple_get connect_count r id m = Peers.get (name id (random_num r connect_count)) m.map

-- `erase(server_id, id)`
unfoldable pub remove : Bytes → Bytes → ClientMap → ClientMap
unfolding relist listed remove_first
remove server_id id m =
    relist server_id (remove_first id (listed server_id m)) (record m { map = erase id m.map })

-- `erase(id)`, which finds the server in the name; `split` is `boost::algorithm::split` at colons.
unfoldable pub remove_by_parts : List Bytes → Bytes → ClientMap → ClientMap
unfolding remove
remove_by_parts (a ∷ b ∷ c ∷ d ∷ []) id m = remove (a ++ (text ":" ++ (b ++ (text ":" ++ c)))) id m
remove_by_parts _ id m = m

unfoldable pub remove_by_name : (Bytes → List Bytes) → Bytes → ClientMap → ClientMap
unfolding remove_by_parts
remove_by_name split id m = remove_by_parts (split id) id m

-- The loop of `close_all` over the entries.
erase_all : PeerMap → PeerMap
erase_all [] = []
erase_all (e ∷ m) = erase_all m

unfoldable pub close_all : ClientMap → ClientMap
unfolding erase_all
close_all m = record m { map = erase_all m.map }

erase_all-empty : (m : PeerMap) → erase_all m ≡ []
unfolding erase_all
erase_all-empty [] = refl
erase_all-empty (e ∷ m) = erase_all-empty m

pub fix_get-close_all : (id : Bytes) (m : ClientMap) → fix_get id (close_all m) ≡ none
unfolding fix_get close_all Peers.get lookup
fix_get-close_all id m = rw (erase_all-empty m.map) refl
