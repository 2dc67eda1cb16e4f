-- ===== src/Config/Tests.antt =====
-- Runs of src/configwrap.cpp and include/configwrap.h.
use bserver.Base.{Bool, true, if◌then◌else◌, ◌≡◌, List, [], ◌∷◌, text, decimal, none, some, refl}
use bserver.Base.Maps.{lookup}
use bserver.Config.Action.{Configwrap, configwrap, Outcome, goes, fails, throws}
use bserver.Config.Init.{Texts, Zookeeper, Settings, wants_zookeeper, init}
use bserver.Config.Started.{Read, init_failed, init_lem}
use bserver.Config.{init_mongo_hosts, ServCfg, nat_key, server_name}
use bserver.Config.Servers.{first_server}

abbrev two_with_one_id : List ServCfg
two_with_one_id =
    record { id = 7; ipaddr = text "10.0.0.1"; port = 8080 }
    ∷ record { id = 7; ipaddr = text "10.0.0.2"; port = 8081 }
    ∷ []

name_of_first : first_server 7 two_with_one_id ≡ some (text "server:10.0.0.1:8080")
unfolding first_server server_name decimal
name_of_first = refl

abbrev texts : Texts
texts = record { split_comma = λ s. s ∷ []; split_colon = λ s. s ∷ []; lexical_cast = λ s. none }

abbrev zookeeper : Zookeeper
zookeeper = record {
  connects = λ url timeout. true;
  opens_cache = λ path disabled. true;
  servers = two_with_one_id;
}

-- Every text is "x" and every number 1.
abbrev settings : Settings
settings = record { get_text = λ k. some (text "x"); get_int = λ k. some 1 }

-- No number is set, so the port is 0.
abbrev without_port : Settings
without_port = record { get_text = λ k. some (text "x"); get_int = λ k. some 0 }

abbrev left_by : Outcome (Unit {0}) → Configwrap
left_by (goes a c) = c
left_by (fails c) = c
left_by throws = configwrap 0 0

abbrev started : Settings → Outcome (Unit {0})
started s = init texts zookeeper (text "/etc/b.ini") true (some s) (configwrap 4 0)

starts : started settings ≡ goes tt (left_by (started settings))
unfolding init configwrap init_mongo_hosts
starts = refl

stops : started without_port ≡ fails (left_by (started without_port))
unfolding init configwrap init_mongo_hosts
stops = refl

init_lem_example :
    let after = left_by (started settings) in
    ◌≡◌ {A = Bool} true true
    × (s : Settings) × (some settings ≡ some s)
    × Read s (text "/etc/b.ini") after
    × (lookup 7 after.server_map
        ≡ (if wants_zookeeper s then first_server 7 zookeeper.servers else none))
init_lem_example =
    init_lem texts zookeeper (text "/etc/b.ini") true (some settings) 4 0 7
      (left_by (started settings)) starts

init_failed_example : (left_by (started without_port)).server_map ≡ []
init_failed_example =
    init_failed texts zookeeper (text "/etc/b.ini") true (some without_port) 4 0
      (left_by (started without_port)) stops
