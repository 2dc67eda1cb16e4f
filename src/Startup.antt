-- ===== src/Startup.antt =====
-- main.cpp: what the program does from its start to its end, in the order in which it does it, and the
-- thread that ends it after a signal. An `int` is a 32-bit pattern.
pub mod Ordered
pub mod Ending
pub mod Kept
pub mod Armed
pub mod Signalled
pub mod Refused
pub mod Alone
pub mod Exited
mod Tests
use bserver.Base.{
  ℕ, zero, suc, ◌%◌, ◌^◌, Bool, true, false, List, [], ◌∷◌, ◌++◌, Bytes, text, Option, none, some,
  replicate, ltb, ◌==◌, if◌then◌else◌,
}
use bserver.Config.Action.{Configwrap, Outcome, goes, fails, throws}
use bserver.Config.Init.{Settings, Zookeeper, Texts, init}
use bserver.Peers.Client
use bserver.Peers.Client.{ClientMap}

pub data Signal : Type 0 where
  sigpipe : Signal
  sigtstp : Signal
  sigttou : Signal
  sigttin : Signal
  sighup : Signal
  sigquit : Signal
  sigurg : Signal
  sigterm : Signal
  sigint : Signal

-- A call of `main`, or of what it calls.
pub data Event : Type 0 where
  log_prefix : Bytes → Event
  set_path : Bytes → Event
  curl_global_init : Event
  py_initialize : Event
  init_threads : Event
  release_thread : Event
  srand : Event
  make_pool : Event
  create_worker : Event
  create_heart : Event
  add_signal : Signal → Event
  wait_signal : Event
  listen : (port : ℕ) → Event
  init_connections : Event
  create_exit_thread : Event
  run_server : Event
  run_pool : Event
  join_server : Event
  join_heart : Event
  join_exit_thread : Event
  stop_server : Event
  stop_pool : Event
  curl_cleanup : Event
  ensure_gil : Event
  py_finalize : Event
  print_exception : Event

-- The C library, the file system, the network, and what `init` of the configuration reads. What throws
-- is false.
pub record Machine : Type 0 where
  pub atoi : Bytes → ℕ
  pub opens_log : Bytes → Bool
  pub texts : Texts
  pub zookeeper : Zookeeper
  pub exists : Bytes → Bool
  pub read_ini : Bytes → Option Settings
  pub binds : (port : ℕ) → Bool

pub record Arguments : Type 0 where
  pub port : ℕ
  pub log_path : Bytes
  pub config_path : Bytes

unfoldable pub arguments : Machine → List Bytes → Arguments
arguments out (_ ∷ port ∷ log_path ∷ config_path ∷ []) = record {
  port = out.atoi port;
  log_path = log_path;
  config_path = config_path;
}
arguments out _ = record {
  port = 0;
  log_path = text "/tmp/log";
  config_path = text "/usr/etc/server_service_config.ini";
}

-- What was done, and the status with which `main` ends.
abbrev pub Run : Type 0
Run = List Event × ℕ

abbrev pub after : List Event → Run → Run
after es (rest, status) = (es ++ rest, status)

-- The handlers of exceptions around the body of `main`.
abbrev pub caught : Run
caught = (print_exception ∷ [], 0)

-- `for(int i = 0; i < n; i++)`
abbrev pub rounds : ℕ → ℕ
rounds n = if ltb n (2 ^ 31) then n else 0

abbrev pub signals : List Event
signals =
    add_signal sigpipe
    ∷ add_signal sigtstp
    ∷ add_signal sigttou
    ∷ add_signal sigttin
    ∷ add_signal sighup
    ∷ add_signal sigquit
    ∷ add_signal sigurg
    ∷ add_signal sigterm
    ∷ add_signal sigint
    ∷ wait_signal
    ∷ []

-- From the thread that waits for the end on.
abbrev pub served : Run
served = (
  create_exit_thread ∷ run_server ∷ run_pool ∷ join_server ∷ join_heart ∷ join_exit_thread
      ∷ stop_pool ∷ curl_cleanup ∷ ensure_gil ∷ py_finalize ∷ [],
  0,
)

-- The port, as an endpoint takes it.
unfoldable pub listening_port : (port : ℕ) → Configwrap → ℕ
listening_port port c = (if port == 0 then c.port else port) % 2 ^ 16

-- The acceptor and the connections to the servers: `init_server_connection` catches its exceptions, so
-- it returns whether or not it has opened a connection.
unfoldable pub open_server : Machine → (port : ℕ) → Configwrap → Run
unfolding listening_port
open_server out port c =
    let p = listening_port port c in
    if out.binds p then after (listen p ∷ init_connections ∷ []) served else caught

-- After the configuration is there.
unfoldable pub start_threads : Machine → (port : ℕ) → Configwrap → Run
unfolding open_server
start_threads out port c = after (srand ∷ make_pool ∷ []) (
    after (replicate (rounds c.thread_count) create_worker)
      (after (create_heart ∷ signals) (open_server out port c)))

unfoldable pub configured : Machine → (port : ℕ) → Outcome (Unit {0}) → Run
unfolding start_threads
configured out port (goes _ c) = start_threads out port c
configured out port (fails c) = ([], 1)
configured out port throws = caught

-- `main`, where the configuration is as its constructor left it.
unfoldable pub main : Machine → List Bytes → Configwrap → Run
unfolding arguments configured
main out argv c =
    let a = arguments out argv in
    after (log_prefix (text "bserver") ∷ []) (
      if out.opens_log a.log_path
      then after
          (set_path a.log_path
            ∷ curl_global_init
            ∷ py_initialize
            ∷ init_threads
            ∷ release_thread
            ∷ [])
          (configured out a.port (
            init out.texts out.zookeeper a.config_path (out.exists a.config_path)
              (out.read_ini a.config_path) c))
      else caught)

-- `run` of the thread that ends the program, given `stop_` at the start of each turn and whether there
-- is a server: the registry that it leaves and what it does, `none` while it sleeps.
unfoldable pub run : (stops : List Bool) → (server : Bool) → ClientMap → Option (ClientMap × Run)
run [] server m = none
run (stop ∷ stops) server m =
    let rest = run stops server m in
    if stop
    then some (
      Client.close_all m,
      (
        (if server then stop_server ∷ [] else []) ++ (curl_cleanup ∷ ensure_gil ∷ py_finalize ∷ []),
        1,
      ),
    )
    else rest
