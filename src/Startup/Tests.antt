-- ===== src/Startup/Tests.antt =====
-- Runs of main.cpp.
use bserver.Base.{
  ◌++◌, ◌≡◌, ◌≤◌, ◌⊎◌, arith, replicate, refl, Bool, true, false, List, [], ◌∷◌, Bytes, text, none,
  some,
}
use bserver.Config.{init_mongo_hosts}
use bserver.Config.Action.{Configwrap, configwrap, Outcome, goes, fails, throws}
use bserver.Config.Init.{init}
use bserver.Peers.Client.{ClientMap}
use bserver.Startup.Ending.{
  Process, exits, killed, has, is_add, pool_moves, process, Move, main_moves, exit_moves, signal,
  moves, is_run_pool, is_join_server, is_join_heart, is_join_exit,
}
use bserver.Startup.Exited.{moves-ended_status, signal-ended}
use bserver.Startup.Signalled.{turns}
use bserver.Startup.Refused.{is_print}
use bserver.Startup.{
  Signal, sigurg, sighup, sigterm, sigint, Machine, arguments, listening_port, main,
}
use bserver.Startup.Ordered.{
  is_stop, configuration, count, precedes, is_curl, is_python, is_release, is_listen, is_connect,
  is_serving, starts_thread, main-precedes,
}

-- Every text of the configuration is "x", and every number 3.
abbrev machine : Bool → Machine
machine there = record {
  atoi = λ s. 70000;
  opens_log = λ p. true;
  texts = record { split_comma = λ s. s ∷ []; split_colon = λ s. s ∷ []; lexical_cast = λ s. none };
  zookeeper = record { connects = λ u t. true; opens_cache = λ p d. true; servers = [] };
  exists = λ p. there;
  read_ini = λ p. some (record { get_text = λ k. some (text "x"); get_int = λ k. some 3 });
  binds = λ p. true;
}

abbrev argv : List Bytes
argv = text "bserver" ∷ text "70000" ∷ text "/tmp/l" ∷ text "/etc/b.ini" ∷ []

abbrev left_by : Outcome (Unit {0}) → Configwrap
left_by (goes a c) = c
left_by (fails c) = c
left_by throws = configwrap 0 0

abbrev configured : Configwrap
configured = left_by (configuration (machine true) argv (configwrap 4 0))

main-precedes_example :
    (precedes is_curl starts_thread (main (machine true) argv (configwrap 4 0)).0 ≡ true)
    × (precedes is_python starts_thread (main (machine true) argv (configwrap 4 0)).0 ≡ true)
    × (precedes is_release starts_thread (main (machine true) argv (configwrap 4 0)).0 ≡ true)
    × (precedes is_listen is_serving (main (machine true) argv (configwrap 4 0)).0 ≡ true)
    × (precedes is_connect is_serving (main (machine true) argv (configwrap 4 0)).0 ≡ true)
main-precedes_example = main-precedes (machine true) argv (configwrap 4 0)

abbrev one_connection : ClientMap
one_connection = record { map = (text "a", some 1) ∷ []; client_list = [] }

-- A schedule in which `main` gets as far as it can, and both threads then move in turn.
abbrev as_far : List Move
as_far = replicate 40 main_moves

abbrev in_turn : List Move
in_turn =
    exit_moves ∷ main_moves ∷ exit_moves ∷ main_moves ∷ exit_moves ∷ exit_moves ∷ exit_moves
    ∷ exit_moves ∷ main_moves ∷ []

-- All of the signals but one end a process.
abbrev ends_process : Signal → Bool
ends_process sigurg = false
ends_process _ = true

abbrev started : Process
started = process (main (machine true) argv (configwrap 4 0)) one_connection ends_process

signal-ended_example :
    (moves
      (signal sighup ∷ ((main_moves ∷ signal sigint ∷ []) ++ (pool_moves ∷ in_turn)))
      (moves as_far started)).ended
    ≡ some (exits 1)
unfolding init init_mongo_hosts arguments listening_port main process moves is_stop is_run_pool
    is_join_server is_join_heart is_join_exit turns
signal-ended_example =
    signal-ended (machine true) argv (configwrap 4 0) one_connection ends_process as_far
      (main_moves ∷ signal sigint ∷ []) in_turn sighup refl (omega arith)

-- A signal that comes before `main` has added it.
abbrev early : List Move
early = main_moves ∷ signal sigterm ∷ main_moves ∷ []

moves-ended_status_example :
    (killed sigterm ≡ exits 1)
    ⊎ ((killed sigterm ≡ exits 0) × (1 ≤ count is_print (moves early started).done))
    ⊎ ((s : Signal) × (killed sigterm ≡ killed s)
        × (has (is_add s) (moves early started).done ≡ false))
unfolding main process moves arguments has is_add is_join_heart is_join_exit is_join_server
moves-ended_status_example =
    moves-ended_status (machine true) argv (configwrap 4 0) one_connection ends_process early
      (killed sigterm) refl
