-- ===== src/Peers/Server.antt =====
-- The connections of clients, `peer_handle_map_for_server` of include/peer_handle_map.h.
use bserver.Base.{◌≡◌, refl, ap, ◌∙◌, List, [], ◌∷◌, Bytes, none, bytes_eq, if◌then◌else◌, arith}
use bserver.Base.Maps.{bytes_key, erase}
use bserver.Peers.{SessionPtr, PeerMap, set, get, remove, get-insert, get-erase}

-- What happens to the map: a connection opens under a name, or closes.
pub data Event : Type 0 where
  opens : Bytes → SessionPtr → Event
  closes : Bytes → Event

unfoldable pub apply : Event → PeerMap → PeerMap
apply (opens id p) m = (set id p m).1
apply (closes id) m = remove id m

unfoldable pub run : List Event → PeerMap → PeerMap
unfolding apply
run [] m = m
run (e ∷ es) m = run es (apply e m)

-- The connection of a name is the one that opened under it last, unless a connection closed under that
-- name since, whichever one it was.
unfoldable pub last_opened : Bytes → List Event → SessionPtr → SessionPtr
last_opened k [] p = p
last_opened k (opens id q ∷ es) p = last_opened k es (if bytes_eq id k then q else p)
last_opened k (closes id ∷ es) p = last_opened k es (if bytes_eq id k then none else p)

pub get-opens :
    (id k : Bytes) (p : SessionPtr) (m : PeerMap)
    → get k (set id p m).1 ≡ (if bytes_eq id k then p else get k m)
unfolding set
get-opens id k p m =
    ground (arith, get-insert id k p m, get-insert id k p (erase id m), get-erase id k m)

-- After any history of connections that open and close under names, looking a name up gives what the
-- last event of that name says: the session that opened, or nothing where one closed, also where an
-- older session closed under the name of a newer one. A name without an event gives what the map held
-- before.
pub get-run :
    (k : Bytes) (es : List Event) (m : PeerMap) → get k (run es m) ≡ last_opened k es (get k m)
unfolding run last_opened
get-run k [] m = refl
get-run k (opens id p ∷ es) m =
    get-run k es (apply (opens id p) m) ∙ ap (last_opened k es) (get-opens id k p m)
get-run k (closes id ∷ es) m =
    get-run k es (apply (closes id) m) ∙ ap (last_opened k es) (unfold remove in get-erase id k m)
