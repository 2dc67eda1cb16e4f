-- ===== src/Config/Servers.antt =====
-- What the map of servers of src/configwrap.cpp holds after a list of servers came in.
use bserver.Base.{
  ℕ, ◌≡◌, refl, List, [], ◌∷◌, Bytes, Option, none, some, inl, inr, ◌⊎◌, ◌==◌, if◌then◌else◌, arith,
}
use bserver.Base.Maps.{bytes_key, lookup, lookup-insert}
use bserver.Config.{ServCfg, ServerMap, nat_key, server_name, emplace, add_servers, flush_servers}

-- The name of the first server of the list that has the id.
unfoldable pub first_server : ℕ → List ServCfg → Option Bytes
first_server k [] = none
first_server k (c ∷ cs) = if c.id == k then some (server_name c) else first_server k cs

abbrev or_else : Option Bytes → Option Bytes → Option Bytes
or_else none p = p
or_else (some s) p = some s

lookup-emplace :
    (k j : ℕ) (s : Bytes) (m : ServerMap)
    → lookup j (emplace k s m) ≡ or_else (lookup j m) (if k == j then some s else none)
unfolding emplace
lookup-emplace k j s m = ground (arith, lookup-insert k j s m)

pub lookup-add_servers :
    (j : ℕ) (cs : List ServCfg) (m : ServerMap)
    → lookup j (add_servers cs m) ≡ or_else (lookup j m) (first_server j cs)
unfolding add_servers first_server
lookup-add_servers j [] m = ground arith
lookup-add_servers j (c ∷ cs) m = ground (
  arith,
  lookup-add_servers j cs (emplace c.id (server_name c) m),
  lookup-emplace c.id j (server_name c) m,
)

-- A changed list of servers replaces the whole map: afterwards an id has the name of the first server
-- of the list with that id, and no name if there is none. An empty list changes nothing.
pub lookup-flush_servers :
    (j : ℕ) (cs : List ServCfg) (m : ServerMap)
    → ((cs ≡ []) × (flush_servers cs m ≡ none))
      ⊎ ((n : ServerMap) × (flush_servers cs m ≡ some n) × (lookup j n ≡ first_server j cs))
unfolding flush_servers first_server lookup
lookup-flush_servers j [] m = inl (refl, refl)
lookup-flush_servers j (c ∷ cs) m =
    inr (add_servers (c ∷ cs) [], refl, lookup-add_servers j (c ∷ cs) [])
