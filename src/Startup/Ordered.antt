-- ===== src/Startup/Ordered.antt =====
-- In which order main.cpp starts things, how many of them, and with what status it ends.
use bserver.Base.{
  ℕ, zero, suc, ◌≡◌, refl, ◌∙◌, Bool-cases, inl, inr, Bool, true, false, List, [], ◌∷◌, ◌++◌, Bytes,
  none, some, replicate, if◌then◌else◌, arith,
}
use bserver.Config.Action.{Configwrap, Outcome, goes, fails, throws}
use bserver.Config.Init.{init}
use bserver.Peers.Client
use bserver.Peers.Client.{ClientMap}
use bserver.Startup.{
  Event, curl_global_init, py_initialize, release_thread, create_worker, create_heart, listen,
  init_connections, create_exit_thread, run_server, run_pool, stop_server, curl_cleanup, ensure_gil,
  py_finalize, Machine, arguments, rounds, open_server, start_threads, configured, main, run,
}

-- The events that start threads.
unfoldable pub starts_thread : Event → Bool
starts_thread create_worker = true
starts_thread create_heart = true
starts_thread create_exit_thread = true
starts_thread run_server = true
starts_thread run_pool = true
starts_thread _ = false

unfoldable pub is_worker : Event → Bool
is_worker create_worker = true
is_worker _ = false

unfoldable pub is_listen : Event → Bool
is_listen (listen _) = true
is_listen _ = false

unfoldable pub is_connect : Event → Bool
is_connect init_connections = true
is_connect _ = false

unfoldable pub is_stop : Event → Bool
is_stop stop_server = true
is_stop _ = false

unfoldable pub is_serving : Event → Bool
is_serving run_server = true
is_serving run_pool = true
is_serving _ = false

unfoldable pub is_curl : Event → Bool
is_curl curl_global_init = true
is_curl _ = false

unfoldable pub is_python : Event → Bool
is_python py_initialize = true
is_python _ = false

unfoldable pub is_release : Event → Bool
is_release release_thread = true
is_release _ = false

-- Each event of the second kind has one of the first before it.
unfoldable pub precedes : (Event → Bool) → (Event → Bool) → List Event → Bool
precedes p q [] = true
precedes p q (e ∷ es) =
    let rest = precedes p q es in if p e then true else if q e then false else rest

unfoldable pub count : (Event → Bool) → List Event → ℕ
count p [] = 0
count p (e ∷ es) = let rest = count p es in if p e then suc rest else rest

-- The ports of the calls that listen.
unfoldable pub ports : List Event → List ℕ
ports [] = []
ports (listen n ∷ es) = n ∷ ports es
ports (_ ∷ es) = ports es

precedes-workers :
    (p q : Event → Bool) (n : ℕ) (es : List Event)
    → p create_worker ≡ false
    → q create_worker ≡ false
    → precedes p q (replicate n create_worker ++ es) ≡ precedes p q es
unfolding precedes
precedes-workers p q zero es np nq = refl
precedes-workers p q (suc n) es np nq = rw (np, nq) (precedes-workers p q n es np nq)

-- What `init` does in `main`.
abbrev pub configuration : Machine → List Bytes → Configwrap → Outcome (Unit {0})
configuration out argv c =
    let path = (arguments out argv).config_path in
    init out.texts out.zookeeper path (out.exists path) (out.read_ini path) c

open_server-serves :
    (out : Machine) (port : ℕ) (c : Configwrap)
    → (precedes is_listen is_serving (open_server out port c).0 ≡ true)
      × (precedes is_connect is_serving (open_server out port c).0 ≡ true)
unfolding open_server precedes is_listen is_serving is_connect
open_server-serves out port c = ground arith

start_threads-serves :
    (out : Machine) (port : ℕ) (c : Configwrap)
    → (precedes is_listen is_serving (start_threads out port c).0 ≡ true)
      × (precedes is_connect is_serving (start_threads out port c).0 ≡ true)
unfolding start_threads precedes is_listen is_serving is_connect
start_threads-serves out port c =
    let (l, k) = open_server-serves out port c in
    (
      precedes-workers is_listen is_serving (rounds c.thread_count) _ refl refl ∙ l,
      precedes-workers is_connect is_serving (rounds c.thread_count) _ refl refl ∙ k,
    )

configured-serves :
    (out : Machine) (port : ℕ) (o : Outcome (Unit {0}))
    → (precedes is_listen is_serving (configured out port o).0 ≡ true)
      × (precedes is_connect is_serving (configured out port o).0 ≡ true)
unfolding configured precedes is_listen is_serving is_connect
configured-serves out port (goes _ c) = start_threads-serves out port c
configured-serves out port (fails c) = (refl, refl)
configured-serves out port throws = (refl, refl)

-- No thread is started before libcurl and the interpreter are ready and the lock of the interpreter is
-- released, and the server and its pool do not run before the server listens and
-- `init_server_connection` has returned, with or without connections, wherever the start fails.
pub main-precedes :
    (out : Machine) (argv : List Bytes) (c : Configwrap)
    → (precedes is_curl starts_thread (main out argv c).0 ≡ true)
      × (precedes is_python starts_thread (main out argv c).0 ≡ true)
      × (precedes is_release starts_thread (main out argv c).0 ≡ true)
      × (precedes is_listen is_serving (main out argv c).0 ≡ true)
      × (precedes is_connect is_serving (main out argv c).0 ≡ true)
unfolding main precedes is_listen is_serving is_connect is_curl is_python is_release starts_thread
main-precedes out argv c =
    let (l, k) = configured-serves out (arguments out argv).port (configuration out argv c) in
    elim (Bool-cases (out.opens_log (arguments out argv).log_path)) [
      | inl e ↦ rw e (refl, refl, refl, l, k)
      | inr e ↦ rw e (refl, refl, refl, refl, refl)
    ]

-- The status of `main` where the configuration does not let it go on.
unfoldable pub failure_status : Outcome (Unit {0}) → ℕ
failure_status (fails _) = 1
failure_status _ = 0

unfoldable pub can_go : Outcome (Unit {0}) → Bool
can_go (goes _ _) = true
can_go _ = false

configured-refused :
    (out : Machine) (port : ℕ) (o : Outcome (Unit {0}))
    → can_go o ≡ false
    → (count starts_thread (configured out port o).0 ≡ 0)
      × (ports (configured out port o).0 ≡ [])
      × ((configured out port o).1 ≡ failure_status o)
unfolding configured count starts_thread ports failure_status can_go
configured-refused out port (goes _ c) e = absurd (cc)
configured-refused out port (fails c) e = (refl, refl, refl)
configured-refused out port throws e = (refl, refl, refl)

-- Where the configuration does not let the program go on, it starts no thread and does not listen. It
-- ends with status 1 only where the log opens and `init` returns -1: where the log or the
-- configuration throws, the status is 0.
pub main_refused :
    (out : Machine) (argv : List Bytes) (c : Configwrap)
    → can_go (configuration out argv c) ≡ false
    → (count starts_thread (main out argv c).0 ≡ 0)
      × (ports (main out argv c).0 ≡ [])
      × ((main out argv c).1 ≡ (
          if out.opens_log (arguments out argv).log_path
          then failure_status (configuration out argv c)
          else 0))
unfolding main count starts_thread ports
main_refused out argv c e =
    let (t, l, s) = configured-refused out (arguments out argv).port (configuration out argv c) e in
    elim (Bool-cases (out.opens_log (arguments out argv).log_path)) [
      | inl e ↦ rw e (t, l, s)
      | inr e ↦ rw e (refl, refl, refl)
    ]

stops_once :
    (server : Bool)
    → count is_stop (
        (if server then stop_server ∷ [] else []) ++ (curl_cleanup ∷ ensure_gil ∷ py_finalize ∷ []))
      ≡ (if server then 1 else 0)
unfolding count is_stop
stops_once true = refl
stops_once false = refl

-- The thread that waits for the end sleeps while no signal has come. In the first turn after one it
-- takes every connection out of the registry, so that no name finds one, stops the server if there
-- is one, and ends the program with status 1.
pub run_lem :
    (turns : ℕ) (later : List Bool) (server : Bool) (m : ClientMap) (id : Bytes)
    → (run (replicate turns false) server m ≡ none)
      × (m' : ClientMap) × (es : List Event) × (run
            (replicate turns false ++ (true ∷ later))
            server
            m
          ≡ some (m', (es, 1)))
      × (Client.fix_get id m' ≡ none)
      × (count is_stop es ≡ (if server then 1 else 0))
unfolding run count is_stop
run_lem zero later server m id =
    (refl, Client.close_all m, _, refl, Client.fix_get-close_all id m, stops_once server)
run_lem (suc n) later server m id = run_lem n later server m id
