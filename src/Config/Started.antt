-- ===== src/Config/Started.antt =====
-- What `init` of src/configwrap.cpp leaves, and when.
use bserver.Base.{
  ℕ, ◌≡◌, ◌≢◌, refl, sym, ap, ◌∙◌, ◌⊎◌, inl, inr, Bool-cases, Bool, true, false, Bytes, text,
  is_empty, Option, none, some, [], arith, if◌then◌else◌,
}
use bserver.Base.Maps.{lookup}
use bserver.Config.{nat_key, add_servers}
use bserver.Config.Servers.{first_server, lookup-add_servers}
use bserver.Config.Action.{
  Configwrap, configwrap, Outcome, Action, continue, goes, fails, throws, when,
}
use bserver.Config.Init.{
  Settings, Zookeeper, Texts, wants_zookeeper, read_config, init_zookeeper, init,
}

continue-eq-goes :
    {A B : Type 0} (o : Outcome A) (f : A → Action B) (c : Configwrap) (b : B)
    → continue o f ≡ goes b c
    → (a : A) × (d : Configwrap) × (o ≡ goes a d) × (f a d ≡ goes b c)
continue-eq-goes (goes a d) f c b e = (a, d, refl, e)
continue-eq-goes (fails d) f c b e = absurd (ground arith)
continue-eq-goes throws f c b e = absurd (ground arith)

-- What a start with ZooKeeper makes of a configuration.
pub record Connected (z : Zookeeper) (before after : Configwrap) : Type 0 where
  pub server_map : after.server_map ≡ add_servers z.servers before.server_map
  pub session_path : is_empty after.session_path ≡ false
  pub session_path_bak : is_empty after.session_path_bak ≡ false
  pub db_group_path : is_empty after.db_group_path ≡ false
  pub callback : after.has_callback ≡ true
  pub path : after.path ≡ before.path
  pub port : after.port ≡ before.port
  pub connect_count : after.connect_count ≡ before.connect_count
  pub task_queue_max : after.task_queue_max ≡ before.task_queue_max
  pub python_root : after.python_root ≡ before.python_root

init_zookeeper-Connected :
    (s : Settings) (z : Zookeeper) (c after : Configwrap) (u : Unit {0})
    → init_zookeeper s z c ≡ goes u after
    → Connected z c after
unfolding init_zookeeper
init_zookeeper-Connected s z c after u e = ground arith

-- The configuration once it is read, before ZooKeeper is asked.
pub record Read (s : Settings) (path : Bytes) (c : Configwrap) : Type 0 where
  pub path_kept : c.path ≡ path
  pub port_read : s.get_int (text "session.port") ≡ some c.port
  pub port_set : c.port ≢ 0
  pub count_read : s.get_int (text "session.connect_count") ≡ some c.connect_count
  pub limit_read : s.get_int (text "session.task_queue_max") ≡ some c.task_queue_max
  pub root_read : s.get_text (text "session.python_root") ≡ some c.python_root

read_config-Read :
    (t : Texts) (path : Bytes) (exists : Bool) (ini : Option Settings) (c read : Configwrap)
    (s : Settings)
    → read_config t path exists ini c ≡ goes s read
    → (exists ≡ true) × (ini ≡ some s) × Read s path read × (read.server_map ≡ c.server_map)
unfolding read_config
read_config-Read t path true (some s') c read s e = ground arith
read_config-Read t path true none c read s e = absurd (cc)
read_config-Read t path false ini c read s e = absurd (cc)

-- The configuration that `init` leaves, from the one that it read.
Final : Settings → Zookeeper → (read after : Configwrap) → Type 0
Final s z read after =
    ((wants_zookeeper s ≡ true) × Connected z read after)
    ⊎ ((wants_zookeeper s ≡ false) × (read ≡ after))

kept : (c d : Configwrap) → ◌≡◌ {A = Outcome (Unit {0})} (goes tt c) (goes tt d) → c ≡ d
kept c d e = cc

init-Final :
    (t : Texts) (z : Zookeeper) (path : Bytes) (exists : Bool) (ini : Option Settings)
    (c after : Configwrap)
    → init t z path exists ini c ≡ goes tt after
    → (s : Settings) × (read : Configwrap) × (read_config t path exists ini c ≡ goes s read)
      × Final s z read after
unfolding init Final
init-Final t z path exists ini c after e =
    let (s, read, first, rest) =
      continue-eq-goes (read_config t path exists ini c)
        (λ s. when (wants_zookeeper s) (init_zookeeper s z)) after tt e in
    (
      s,
      read,
      first,
      elim (Bool-cases (wants_zookeeper s)) [
        | inl yes_zk ↦ inl (yes_zk, init_zookeeper-Connected s z read after tt (rw yes_zk at rest))
        | inr no_zk ↦ inr (no_zk, kept read after (rw no_zk at rest))
      ],
    )

Final-Read :
    (s : Settings) (z : Zookeeper) (path : Bytes) (read after : Configwrap)
    → Final s z read after
    → Read s path read
    → Read s path after
unfolding Final
Final-Read s z path read after (inl (e, v)) r = ground (arith, r.port_set)
Final-Read s z path read after (inr (e, same)) r = rw (← same) r

Final-servers :
    (s : Settings) (z : Zookeeper) (k : ℕ) (read after : Configwrap)
    → Final s z read after
    → read.server_map ≡ []
    → lookup k after.server_map ≡ (if wants_zookeeper s then first_server k z.servers else none)
unfolding Final
Final-servers s z k read after (inl (e, v)) empty = rw e (
    ap (lookup k) (v.server_map ∙ ap (add_servers z.servers) empty)
    ∙ lookup-add_servers k z.servers []
    ∙ (unfold lookup in refl))
Final-servers s z k read after (inr (e, same)) empty =
    rw e (ap (lookup k) (ap (λ c. c.server_map) (sym same) ∙ empty) ∙ (unfold lookup in refl))

no_servers : (hardware junk : ℕ) → (configwrap hardware junk).server_map ≡ []
unfolding configwrap
no_servers hardware junk = refl

-- A start that returns 0: the file was there and could be read, the port is not 0, and the path, the
-- port, the number of connections, the limit of the queue and the path of the scripts are those of the
-- file. The map of servers has, for each id, the first server of that id that ZooKeeper knows, if the
-- configuration asks for ZooKeeper, and is empty if not.
pub init_lem :
    (t : Texts) (z : Zookeeper) (path : Bytes) (exists : Bool) (ini : Option Settings)
    (hardware junk k : ℕ) (after : Configwrap)
    → init t z path exists ini (configwrap hardware junk) ≡ goes tt after
    → (exists ≡ true)
      × (s : Settings) × (ini ≡ some s)
      × Read s path after
      × (lookup k after.server_map ≡ (if wants_zookeeper s then first_server k z.servers else none))
init_lem t z path exists ini hardware junk k after e =
    let c = configwrap hardware junk in
    let (s, read, reads, final) = init-Final t z path exists ini c after e in
    let (there, some_ini, r, same) = read_config-Read t path exists ini c read s reads in
    let empty = same ∙ no_servers hardware junk in
    (
      there,
      s,
      some_ini,
      Final-Read s z path read after final r,
      Final-servers s z k read after final empty,
    )

read_config_failed :
    (t : Texts) (path : Bytes) (exists : Bool) (ini : Option Settings) (c after : Configwrap)
    → read_config t path exists ini c ≡ fails after
    → after.server_map ≡ c.server_map
unfolding read_config
read_config_failed t path true (some s) c after e = ground arith
read_config_failed t path true none c after e = absurd (cc)
read_config_failed t path false ini c after e = ground arith

init_zookeeper_failed :
    (s : Settings) (z : Zookeeper) (c after : Configwrap)
    → init_zookeeper s z c ≡ fails after
    → after.server_map ≡ c.server_map
unfolding init_zookeeper
init_zookeeper_failed s z c after e = ground arith

fails-injective : {B : Type 0} (c d : Configwrap) → ◌≡◌ {A = Outcome B} (fails c) (fails d) → c ≡ d
fails-injective c d e = cc

fails_same :
    {A B : Type 0} (c d : Configwrap)
    → ◌≡◌ {A = Outcome B} (fails c) (fails d)
    → ◌≡◌ {A = Outcome A} (fails c) (fails d)
fails_same c d e = ap fails (fails-injective c d e)

continue-eq-fails :
    {A B : Type 0} (o : Outcome A) (f : A → Action B) (c : Configwrap)
    → continue o f ≡ fails c
    → (o ≡ fails c) ⊎ ((a : A) × (d : Configwrap) × (o ≡ goes a d) × (f a d ≡ fails c))
continue-eq-fails (goes a d) f c e = inr (a, d, refl, e)
continue-eq-fails (fails d) f c e = inl (fails_same d c e)
continue-eq-fails throws f c e = absurd (ground arith)

when_failed :
    (b : Bool) (m : Action (Unit {0})) (c after : Configwrap)
    → when b m c ≡ fails after
    → m c ≡ fails after
when_failed true m c after e = e
when_failed false m c after e = absurd (ground arith)

-- A start that returns -1, at whatever step, leaves the map of servers empty.
pub init_failed :
    (t : Texts) (z : Zookeeper) (path : Bytes) (exists : Bool) (ini : Option Settings)
    (hardware junk : ℕ) (after : Configwrap)
    → init t z path exists ini (configwrap hardware junk) ≡ fails after
    → after.server_map ≡ []
unfolding init
init_failed t z path exists ini hardware junk after e =
    let c = configwrap hardware junk in
    elim (continue-eq-fails (read_config t path exists ini c)
      (λ s. when (wants_zookeeper s) (init_zookeeper s z)) after e) [
        | inl failed ↦
            read_config_failed t path exists ini c after failed ∙ no_servers hardware junk
        | inr (s, read, reads, rest) ↦
            init_zookeeper_failed s z read after
              (when_failed (wants_zookeeper s) (init_zookeeper s z) read after rest)
            ∙ (read_config-Read t path exists ini c read s reads).3
            ∙ no_servers hardware junk
      ]
