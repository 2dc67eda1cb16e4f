-- ===== src/Config/Init.antt =====
-- Start-up in src/configwrap.cpp: `init`, which reads the configuration, `init_zookeeper`, and the older
-- `init_session_n_srvlist`, which nothing calls. KAFKAVERSION is taken as not defined.
-- `boost::property_tree` is a parameter, an `int` is a 32-bit pattern, and the clients of ZooKeeper and
-- of the session and server caches say only whether they could be set up, and which servers they know.
use bserver.Base.{
  ℕ, ◌^◌, Bool, true, not, ◌&&◌, List, [], ◌∷◌, ◌++◌, Bytes, text, is_empty, Option, none, some,
  ltb, ◌==◌, if◌then◌else◌,
}
use bserver.Base.Maps.{bytes_key}
use bserver.Config.Action.{
  Configwrap, goes, Action, ◌>>=◌, ◌>>◌, modify, fail_if, or_throw, or_else, when,
}
use bserver.Config.{ServCfg, emplace, add_servers, pair_urls, init_mongo_hosts}

-- `get` gives a value or throws.
pub record Settings : Type 0 where
  pub get_text : Bytes → Option Bytes
  pub get_int : Bytes → Option ℕ

-- `init` of the client, with the timeout if one is given, and of the cache of servers; its servers.
pub record Zookeeper : Type 0 where
  pub connects : Bytes → Option ℕ → Bool
  pub opens_cache : (path disabled : Bytes) → Bool
  pub servers : List ServCfg

-- The caches of `init_session_n_srvlist`.
pub record Caches : Type 0 where
  pub opens_sessions : List Bytes → List Bytes → Bool
  pub servers : List Bytes → List Bytes → List ServCfg

-- `zk_timeout > 0`
abbrev positive : ℕ → Bool
positive n = ltb 0 n && ltb n (2 ^ 31)

-- The servers of a list enter the map; a text is required that is not empty.
abbrev keep_servers : List ServCfg → Configwrap → Configwrap
unfolding add_servers
keep_servers cs c = record c { server_map = add_servers cs c.server_map }

unfoldable pub init_zookeeper : Settings → Zookeeper → Action (Unit {0})
unfolding keep_servers
init_zookeeper s z = do
  url ← or_throw (s.get_text (text "zookeeper.url"))
  timeout ← or_throw (s.get_int (text "zookeeper.timeout"))
  fail_if (is_empty url)
  fail_if (not (z.connects url (if positive timeout then some timeout else none)))
  serverlist_path ← or_throw (s.get_text (text "zookeeper.serverlist_path"))
  fail_if (is_empty serverlist_path)
  disabled ← or_throw (s.get_text (text "zookeeper.disable_serverlist_path"))
  fail_if (is_empty disabled)
  fail_if (not (z.opens_cache serverlist_path disabled))
  modify (λ c. record c { has_callback = true })
  session_path ← or_throw (s.get_text (text "zookeeper.session_path"))
  modify (λ c. record c { session_path = session_path })
  fail_if (is_empty session_path)
  session_path_bak ← or_throw (s.get_text (text "zookeeper.session_path_bak"))
  modify (λ c. record c { session_path_bak = session_path_bak })
  fail_if (is_empty session_path_bak)
  db_group_path ← or_throw (s.get_text (text "zookeeper.db_group_path"))
  modify (λ c. record c { db_group_path = db_group_path })
  fail_if (is_empty db_group_path)
  modify (keep_servers z.servers)

-- `split` at commas and at colons, and `lexical_cast<int>`.
pub record Texts : Type 0 where
  pub split_comma : Bytes → List Bytes
  pub split_colon : Bytes → List Bytes
  pub lexical_cast : Bytes → Option ℕ

-- `get("session.zookeeper_support", 0) == 1`
abbrev pub wants_zookeeper : Settings → Bool
wants_zookeeper s = or_else (s.get_int (text "session.zookeeper_support")) 0 == 1

-- The part of `init` that reads the configuration: whether the file exists, and what `read_ini` makes
-- of it.
unfoldable pub read_config :
    Texts → (path : Bytes) → (exists : Bool) → Option Settings → Action Settings
read_config t path exists read_ini = do
  fail_if (not exists)
  modify (λ c. record c { path = path })
  s ← or_throw read_ini
  port ← or_throw (s.get_int (text "session.port"))
  modify (λ c. record c { port = port })
  thread_count ← or_throw (s.get_int (text "session.task_thread_count"))
  modify (λ c. record c { thread_count = thread_count })
  io_pool_size ← or_throw (s.get_int (text "session.io_pool_size"))
  modify (λ c. record c { io_pool_size = io_pool_size })
  fail_if (port == 0)
  connect_count ← or_throw (s.get_int (text "session.connect_count"))
  modify (λ c. record c { connect_count = connect_count })
  heart_second ← or_throw (s.get_int (text "session.heart_second"))
  modify (λ c. record c { heart_second = heart_second })
  reply_domain ← or_throw (s.get_text (text "session.reply_domain"))
  modify (λ c. record c { reply_domain = reply_domain })
  post_topic_domain ← or_throw (s.get_text (text "session.post_topic_domain"))
  modify (λ c. record c { post_topic_domain = post_topic_domain })
  robot_domain ← or_throw (s.get_text (text "session.robot_domain"))
  modify (λ c. record c { robot_domain = robot_domain })
  task_queue_max ← or_throw (s.get_int (text "session.task_queue_max"))
  modify (λ c. record c { task_queue_max = task_queue_max })
  python_root ← or_throw (s.get_text (text "session.python_root"))
  modify (λ c. record c { python_root = python_root })
  mongo ← or_throw (s.get_text (text "mongo.hosts"))
  hosts ← or_throw (init_mongo_hosts t.lexical_cast t.split_comma t.split_colon mongo)
  modify (λ c. record c { hosts = c.hosts ++ hosts })
  λ c. goes s c

unfoldable pub init :
    Texts → Zookeeper → (path : Bytes) → (exists : Bool) → Option Settings → Action (Unit {0})
unfolding read_config init_zookeeper
init t z path exists read_ini = do
  s ← read_config t path exists read_ini
  when (wants_zookeeper s) (init_zookeeper s z)

-- The loop over the ids of servers that the configuration names.
unfoldable pub add_sids : Texts → Settings → List Bytes → Action (Unit {0})
unfolding emplace
add_sids t s [] = modify (λ c. c)
add_sids t s (sid ∷ sids) = do
  key ← or_throw (t.lexical_cast sid)
  address ← or_throw (s.get_text (text "session." ++ sid))
  modify (λ c. record c { server_map = emplace key (text "server:" ++ address) c.server_map })
  add_sids t s sids

-- The end of `init_session_n_srvlist`, given the servers of the cache.
unfoldable pub init_servers : Texts → Settings → List ServCfg → Action (Unit {0})
unfolding add_sids keep_servers
init_servers t s [] = do
  sids ← or_throw (s.get_text (text "session.sids"))
  fail_if (is_empty sids)
  add_sids t s (t.split_comma sids)
init_servers t s (cfg ∷ cs) = modify (keep_servers (cfg ∷ cs))

unfoldable pub init_session_n_srvlist : Texts → Settings → Caches → Action (Unit {0})
unfolding pair_urls init_servers
init_session_n_srvlist t s caches = do
  dburls ← or_throw (s.get_text (text "session.dburls"))
  modify (λ c. record c { dburls = t.split_comma dburls })
  bakdburls ← or_throw (s.get_text (text "session.bakdburls"))
  modify (λ c. record c { bakdburls = t.split_comma bakdburls })
  dbservs ← or_throw (s.get_text (text "session.dbservlist"))
  dbbakservs ← or_throw (s.get_text (text "session.bakservlist"))
  urls ← or_throw (s.get_text (text "messagebox.msg_cache_url"))
  bak ← or_throw (s.get_text (text "messagebox.bakmsg_chache_url"))
  modify (λ c. record c {
    message_box_urls = pair_urls (t.split_comma urls) (t.split_comma bak) c.message_box_urls;
    db_bak_urls = pair_urls c.dburls c.bakdburls c.db_bak_urls;
  })
  fail_if (not (caches.opens_sessions (t.split_comma dburls) (t.split_comma bakdburls)))
  init_servers t s (caches.servers (t.split_comma dbservs) (t.split_comma dbbakservs))
