-- ===== src/Config/Action.antt =====
-- The state of src/configwrap.cpp, and the steps of its start-up: a step goes on, returns -1 or throws.
use bserver.Base.{ℕ, Bool, true, false, List, [], Bytes, Option, none, some}
use bserver.Base.Maps.{Map, bytes_key}
use bserver.Config.{ServerMap}

pub record Configwrap : Type 0 where
  pub port : ℕ
  pub server_map : ServerMap
  pub connect_count : ℕ
  pub heart_second : ℕ
  pub path : Bytes
  pub thread_count : ℕ
  pub io_pool_size : ℕ
  pub dburls : List Bytes
  pub bakdburls : List Bytes
  pub db_bak_urls : Map Bytes Bytes
  pub message_box_urls : Map Bytes Bytes
  pub session_path : Bytes
  pub session_path_bak : Bytes
  pub db_group_path : Bytes
  pub reply_domain : Bytes
  pub post_topic_domain : Bytes
  pub robot_domain : Bytes
  pub task_queue_max : ℕ
  pub python_root : Bytes
  pub hosts : List (Bytes × ℕ)
  pub has_callback : Bool

-- The constructor; `junk` is what the member that it leaves out happens to hold.
unfoldable pub configwrap : (hardware_concurrency junk : ℕ) → Configwrap
configwrap hardware_concurrency junk = record {
  port = 0;
  server_map = [];
  connect_count = 1;
  heart_second = 60;
  path = [];
  thread_count = hardware_concurrency;
  io_pool_size = 0;
  dburls = [];
  bakdburls = [];
  db_bak_urls = [];
  message_box_urls = [];
  session_path = [];
  session_path_bak = [];
  db_group_path = [];
  reply_domain = [];
  post_topic_domain = [];
  robot_domain = [];
  task_queue_max = junk;
  python_root = [];
  hosts = [];
  has_callback = false;
}

-- A step goes on with a value, returns -1, or throws.
pub data Outcome (A : Type 0) : Type 0 where
  goes : A → Configwrap → Outcome A
  fails : Configwrap → Outcome A
  throws : Outcome A

abbrev pub Action : Type 0 → Type 0
Action A = Configwrap → Outcome A

abbrev pub continue : {A B : Type 0} → Outcome A → (A → Action B) → Outcome B
continue (goes a c) f = f a c
continue (fails c) f = fails c
continue throws f = throws

infixl 5 ◌>>=◌ ◌>>◌
abbrev pub ◌>>=◌ : {A B : Type 0} → Action A → (A → Action B) → Action B
◌>>=◌ m f c = continue (m c) f

abbrev pub ◌>>◌ : {B : Type 0} → Action (Unit {0}) → Action B → Action B
m >> k = m >>= λ _. k

abbrev pub modify : (Configwrap → Configwrap) → Action (Unit {0})
modify f c = goes tt (f c)

abbrev pub fail_if : Bool → Action (Unit {0})
fail_if true c = fails c
fail_if false c = goes tt c

-- An early return of 0 where the test fails.
abbrev pub when : Bool → Action (Unit {0}) → Action (Unit {0})
when true m = m
when false m = λ c. goes tt c

abbrev pub or_throw : {A : Type 0} → Option A → Action A
or_throw none c = throws
or_throw (some a) c = goes a c

abbrev pub or_else : {A : Type 0} → Option A → A → A
or_else none a = a
or_else (some b) a = b
