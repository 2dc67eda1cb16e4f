-- ===== src/Startup/Ending.antt =====
-- main.cpp: how the process ends. `main` and the thread of `system_exst_thread` take their steps in every
-- order, and each call is one step; a call that waits is a step that cannot be taken yet. A signal that was
-- added is queued until an `io_service` of the pool, once it runs, calls the handler that waits for it; any
-- other has its default action.
use bserver.Base.{
  ℕ, Bool, true, false, ◌&&◌, ◌||◌, ◌==◌, List, [], ◌∷◌, ◌++◌, Option, none, some, if◌then◌else◌,
}
use bserver.Peers.Client.{ClientMap}
use bserver.Startup.{
  Signal, sigpipe, sigtstp, sigttou, sigttin, sighup, sigquit, sigurg, sigterm, sigint, add_signal,
  wait_signal, Event, create_exit_thread, run_pool, join_server, join_heart, join_exit_thread, Run,
  run,
}
use bserver.Startup.Ordered.{is_stop}

unfoldable pub is_exit_thread : Event → Bool
is_exit_thread create_exit_thread = true
is_exit_thread _ = false

unfoldable pub is_run_pool : Event → Bool
is_run_pool run_pool = true
is_run_pool _ = false

unfoldable pub is_join_server : Event → Bool
is_join_server join_server = true
is_join_server _ = false

unfoldable pub is_join_heart : Event → Bool
is_join_heart join_heart = true
is_join_heart _ = false

unfoldable pub is_join_exit : Event → Bool
is_join_exit join_exit_thread = true
is_join_exit _ = false

-- The number of a signal.
unfoldable pub number : Signal → ℕ
number sigpipe = 13
number sigtstp = 20
number sigttou = 22
number sigttin = 21
number sighup = 1
number sigquit = 3
number sigurg = 23
number sigterm = 15
number sigint = 2

unfoldable pub is_add : Signal → Event → Bool
unfolding number
is_add s (add_signal t) = number s == number t
is_add s _ = false

unfoldable pub is_wait : Event → Bool
is_wait wait_signal = true
is_wait _ = false

unfoldable pub has : (Event → Bool) → List Event → Bool
has q [] = false
has q (e ∷ es) = let rest = has q es in q e || rest

-- How a process ends: with a status, or by the default action of a signal.
pub data Exit : Type 0 where
  exits : ℕ → Exit
  killed : Signal → Exit

-- The thread that waits for the end: not there yet, in its loop, or behind it, with what it has still to
-- do and the status of its `exit`.
pub data ExitThread : Type 0 where
  absent : ExitThread
  asleep : ExitThread
  ending : List Event → ℕ → ExitThread

-- `todo` and `status` are what `main` has still to do and the value that it returns then, `done` what
-- either thread has done. `queued` says that a signal waits for its handler, `terminates` whether the
-- default action of a signal ends a process.
pub record Process : Type 0 where
  pub todo : List Event
  pub status : ℕ
  pub done : List Event
  pub exit_thread : ExitThread
  pub stop : Bool
  pub queued : Bool
  pub terminates : Signal → Bool
  pub pool_runs : Bool
  pub server_stopped : Bool
  pub registry : ClientMap
  pub ended : Option Exit

unfoldable pub process : Run → ClientMap → (terminates : Signal → Bool) → Process
process r m terminates = record {
  todo = r.0;
  status = r.1;
  done = [];
  exit_thread = absent;
  stop = false;
  queued = false;
  terminates = terminates;
  pool_runs = false;
  server_stopped = false;
  registry = m;
  ended = none;
}

-- Whether a call of `main` can return. The threads of the server return once it is stopped; the
-- heartbeat is a `while(1)` that nobody interrupts, and the thread that waits for the end calls `exit`.
unfoldable pub returns : Event → Process → Bool
returns e p =
    if is_join_heart e || is_join_exit e
    then false
    else if is_join_server e
    then p.server_stopped
    else true

unfoldable pub perform : Event → Process → Process
perform e p = record p {
  done = p.done ++ (e ∷ []);
  exit_thread = if is_exit_thread e then asleep else p.exit_thread;
  pool_runs = is_run_pool e || p.pool_runs;
  server_stopped = is_stop e || p.server_stopped;
}

unfoldable pub main_goes : List Event → Process → Process
unfolding returns perform
main_goes [] p = record p { ended = some (exits p.status) }
main_goes (e ∷ es) p = if returns e p then perform e (record p { todo = es }) else p

-- The server is there before the thread is.
unfoldable pub exit_goes : ExitThread → Process → Process
unfolding perform
exit_goes absent p = p
exit_goes asleep p = elim (run (p.stop ∷ []) true p.registry) [
  | none ↦ p
  | some (m, (es, status)) ↦ record p { registry = m; exit_thread = ending es status }
]
exit_goes (ending [] status) p = record p { ended = some (exits status) }
exit_goes (ending (e ∷ es) status) p = perform e (record p { exit_thread = ending es status })

-- A step of `main` or of the thread that waits for the end, a signal, a turn of the pool, or what other
-- threads do to the registry.
pub data Move : Type 0 where
  main_moves : Move
  exit_moves : Move
  signal : Signal → Move
  pool_moves : Move
  registers : ClientMap → Move

-- A signal comes.
unfoldable pub receive : Signal → Process → Process
unfolding has is_add
receive s p =
    if has (is_add s) p.done
    then record p { queued = true }
    else if p.terminates s
    then record p { ended = some (killed s) }
    else p

-- The pool runs the handler of a queued signal, `stop`.
unfoldable pub handle_signal : Process → Process
unfolding has is_wait
handle_signal p = record p { stop = (p.pool_runs && has is_wait p.done && p.queued) || p.stop }

unfoldable pub move : Move → Process → Process
unfolding main_goes exit_goes receive handle_signal
move main_moves p = main_goes p.todo p
move exit_moves p = exit_goes p.exit_thread p
move (signal s) p = receive s p
move pool_moves p = handle_signal p
move (registers m) p = record p { registry = m }

-- Nothing moves in a process that has ended.
unfoldable pub live : Option Exit → (before after : Process) → Process
live none p q = q
live (some e) p q = p

unfoldable pub step : Move → Process → Process
unfolding move live
step m p = live p.ended p (move m p)

unfoldable pub moves : List Move → Process → Process
unfolding step
moves [] p = p
moves (m ∷ ms) p = moves ms (step m p)
