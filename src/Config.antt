-- ===== src/Config.antt =====
-- src/configwrap.cpp and include/configwrap.h: the counters, the map of servers, the hosts of the
-- database and the backup URLs. `boost::algorithm::split` and `boost::lexical_cast` are parameters;
-- the ids of servers, an `int`, are taken as numbers that are not negative.
pub mod Servers
pub mod Counters
pub mod Action
pub mod Init
pub mod Started
mod Tests
use bserver.Base.{
  ℕ, suc, ◌+◌, ◌-◌, ◌^◌, Bool, true, false, not, List, [], ◌∷◌, ◌++◌, Bytes, text, decimal,
  is_empty, Option, none, some, ltb, leb, ◌==◌, ==_iff, ◌≡◌, arith, if◌then◌else◌,
}
use bserver.Base.Maps.{Key, Map, bytes_key, lookup, insert}

pub nat_total : (j k : ℕ) → ltb j k ≡ false → ltb k j ≡ false → j ≡ k
nat_total j k h l = ground arith

instance abbrev pub nat_key : Key ℕ
nat_key = record { beq = ◌==◌; lt = ltb; beq_iff = ==_iff; lt_total = nat_total }

-- `id_` and `send_count_id_`, which start at 1.
abbrev pub max_int64 : ℕ
max_int64 = 2 ^ 63 - 1

-- `id()`: the number, and `id_` after it.
unfoldable pub next_id : ℕ → ℕ × ℕ
next_id id = if leb max_int64 id then (0, 1) else (id, id + 1)

-- `meet_you::serv_cfg`
pub record ServCfg : Type 0 where
  pub id : ℕ
  pub ipaddr : Bytes
  pub port : ℕ

abbrev pub ServerMap : Type 0
ServerMap = Map ℕ Bytes

-- `ss << "server:" << ipaddr << ":" << port`
unfoldable pub server_name : ServCfg → Bytes
server_name c = text "server:" ++ (c.ipaddr ++ (text ":" ++ decimal c.port))

-- `server_map_.insert(...)` keeps the entry of a key that is there.
unfoldable pub emplace : ℕ → Bytes → ServerMap → ServerMap
emplace k s m = elim (lookup k m) [ none ↦ insert k s m | some t ↦ m ]

-- The loop over the servers.
unfoldable pub add_servers : List ServCfg → ServerMap → ServerMap
unfolding emplace server_name
add_servers [] m = m
add_servers (c ∷ cs) m = add_servers cs (emplace c.id (server_name c) m)

-- The first part of `servlist_callback`: -1 and nothing changed without servers, else a new map.
unfoldable pub flush_servers : List ServCfg → ServerMap → Option ServerMap
unfolding add_servers
flush_servers [] m = none
flush_servers (c ∷ cs) m = some (add_servers (c ∷ cs) [])

-- The loops of `init_session_n_srvlist` that pair URLs with their backups; `split` gives at least one.
unfoldable pub pair_urls : List Bytes → List Bytes → Map Bytes Bytes → Map Bytes Bytes
pair_urls [] bak m = m
pair_urls (u ∷ us) [] m = pair_urls us [] (insert u [] m)
pair_urls (u ∷ us) (b ∷ bak) m = pair_urls us bak (insert u b m)

-- One host of `init_mongo_hosts`, given its parts; `none` is an exception of `lexical_cast`.
unfoldable pub add_host :
    (Bytes → Option ℕ) → List Bytes → List (Bytes × ℕ) → Option (List (Bytes × ℕ))
add_host lexical_cast (ip ∷ port ∷ []) hosts = elim (lexical_cast port) [
  | none ↦ none
  | some p ↦ some (hosts ++ ((ip, p) ∷ []))
]
add_host lexical_cast _ hosts = some hosts

unfoldable pub add_hosts :
    (Bytes → Option ℕ)
    → (Bytes → List Bytes)
    → List Bytes
    → List (Bytes × ℕ)
    → Option (List (Bytes × ℕ))
unfolding add_host
add_hosts lexical_cast split_colon [] hosts = some hosts
add_hosts lexical_cast split_colon (h ∷ hs) hosts =
    elim (add_host lexical_cast (split_colon h) hosts) [
      | none ↦ none
      | some more ↦ add_hosts lexical_cast split_colon hs more
    ]

unfoldable pub init_mongo_hosts :
    (Bytes → Option ℕ)
    → (Bytes → List Bytes)
    → (Bytes → List Bytes)
    → Bytes
    → Option (List (Bytes × ℕ))
unfolding add_hosts
init_mongo_hosts lexical_cast split_comma split_colon hosts =
    add_hosts lexical_cast split_colon (split_comma hosts) []
