-- ===== src/Startup/Armed.antt =====
-- Signals of main.cpp: which are added, and who waits for them, by the time the pool runs.
use bserver.Base.{
  ℕ, ◌≤◌, ◌≡◌, ◌⊎◌, inl, inr, refl, Bool-cases, Bool, true, false, List, [], ◌∷◌, ◌++◌, ◌||◌, Bytes,
  Option, none, some, replicate, arith, text,
}
use bserver.Config.Action.{Configwrap, Outcome, goes, fails, throws}
use bserver.Startup.{
  Signal, Event, create_worker, Machine, arguments, rounds, start_threads, configured, main, run,
  sigpipe, sigtstp, sigttou, sigttin, sighup, sigquit, sigurg, sigterm, sigint, create_heart,
  signals, srand, make_pool, log_prefix, set_path, curl_global_init, py_initialize, init_threads,
  release_thread, caught,
}
use bserver.Startup.Ordered.{count, precedes, configuration}
use bserver.Startup.Ending.{
  is_run_pool, number, is_add, is_wait, has, Exit, killed, ExitThread, absent, asleep, ending,
  Process, returns, perform, main_goes, exit_goes, receive, handle_signal, Move, main_moves,
  exit_moves, signal, pool_moves, registers, move, live, step, moves,
}
use bserver.Startup.Refused.{count-workers}
use bserver.Startup.Kept.{own, Kept, step-Inv}

pub has_snoc :
    (q : Event → Bool) (es : List Event) (e : Event) → has q (es ++ (e ∷ [])) ≡ has q es || q e
unfolding has
has_snoc q [] e = ground arith
has_snoc q (x ∷ es) e = ground (arith, has_snoc q es e)

-- What is awaited has been done, or is to be done before the pool runs.
unfoldable pub Armed : (Event → Bool) → List Event → Process → Type 0
Armed q todo p =
    (has q p.done ≡ true) ⊎ ((precedes q is_run_pool todo ≡ true) × (p.pool_runs ≡ false))

module _ (q : Event → Bool) where
  perform-Armed :
      (e : Event) (es : List Event) (p : Process)
      → Armed q (e ∷ es) p
      → Armed q es (perform e (record p { todo = es }))
  unfolding Armed perform precedes
  perform-Armed e es p (inl d) = inl (ground (arith, has_snoc q p.done e))
  perform-Armed e es p (inr (f, r)) = elim (Bool-cases (q e)) [
    | inl x ↦ inl (ground (arith, has_snoc q p.done e))
    | inr x ↦ inr (ground arith, ground arith)
  ]

  own-Armed :
      (e : Event) (x : ExitThread) (p : Process)
      → is_run_pool e ≡ false
      → Armed q p.todo p
      → Armed q p.todo (perform e (record p { exit_thread = x }))
  unfolding Armed perform
  own-Armed e x p n (inl d) = inl (ground (arith, has_snoc q p.done e))
  own-Armed e x p n (inr (f, r)) = inr (f, ground arith)

  main-Armed :
      (es : List Event) (p : Process)
      → Armed q es p
      → Armed q p.todo p
      → Armed q (main_goes es p).todo (main_goes es p)
  unfolding main_goes Armed perform
  main-Armed [] p a b = b
  main-Armed (e ∷ es) p a b = elim (Bool-cases (returns e p)) [
    | inl can ↦ rw can (perform-Armed e es p a)
    | inr waits ↦ rw waits b
  ]

  exit-Armed :
      (x : ExitThread) (p : Process)
      → count is_run_pool (own x) ≡ 0
      → Armed q p.todo p
      → Armed q (exit_goes x p).todo (exit_goes x p)
  unfolding exit_goes Armed run count
  exit-Armed absent p n a = a
  exit-Armed asleep p n a = elim (Bool-cases p.stop) [ inl s ↦ rw s a | inr s ↦ rw s a ]
  exit-Armed (ending [] status) p n a = a
  exit-Armed (ending (e ∷ es) status) p n a = own-Armed e (ending es status) p (ground arith) a

  receive-Armed :
      (s : Signal) (p : Process) → Armed q p.todo p → Armed q (receive s p).todo (receive s p)
  unfolding receive Armed
  receive-Armed s p a = elim (Bool-cases (has (is_add s) p.done)) [
    | inl k ↦ rw k a
    | inr k ↦ elim (Bool-cases (p.terminates s)) [ inl t ↦ rw (k, t) a | inr t ↦ rw (k, t) a ]
  ]

  move-Armed :
      (m : Move) (p : Process) → Kept p → Armed q p.todo p → Armed q (move m p).todo (move m p)
  unfolding move handle_signal Armed
  move-Armed main_moves p k a = main-Armed p.todo p a a
  move-Armed exit_moves p k a = exit-Armed p.exit_thread p k.no_pool a
  move-Armed (signal s) p k a = receive-Armed s p a
  move-Armed pool_moves p k a = a
  move-Armed (registers m) p k a = a

  live-Armed :
      (o : Option Exit) (p r : Process)
      → Armed q p.todo p
      → Armed q r.todo r
      → Armed q (live o p r).todo (live o p r)
  unfolding live
  live-Armed none p r a b = b
  live-Armed (some e) p r a b = a

  pub moves-Armed :
      (ms : List Move) (p : Process)
      → Kept p
      → Armed q p.todo p
      → Armed q (moves ms p).todo (moves ms p)
  unfolding moves step
  moves-Armed [] p k a = a
  moves-Armed (m ∷ ms) p k a =
      moves-Armed ms (step m p) (step-Inv m p k)
        (live-Armed p.ended p (move m p) a (move-Armed m p k a))

  precedes_first :
      (es fs : List Event)
      → count is_run_pool es ≡ 0
      → (1 ≤ count q es) ⊎ (precedes q is_run_pool fs ≡ true)
      → precedes q is_run_pool (es ++ fs) ≡ true
  unfolding precedes count
  precedes_first [] fs n (inl o) = absurd (omega arith)
  precedes_first [] fs n (inr o) = o
  precedes_first (e ∷ es) fs n (inl o) = elim (Bool-cases (q e)) [
    | inl x ↦ ground arith
    | inr x ↦ ground (arith, precedes_first es fs (ground arith) (inl (ground arith)))
  ]
  precedes_first (e ∷ es) fs n (inr o) = ground (arith, precedes_first es fs (ground arith) (inr o))

-- `main` adds the signals and waits for them before it runs the pool.
module _ (q : Event → Bool) (armed : 1 ≤ count q (create_heart ∷ signals)) where
  caught-armed : precedes q is_run_pool caught.0 ≡ true
  unfolding precedes is_run_pool
  caught-armed = ground arith

  configured-armed :
      (out : Machine) (port : ℕ) (o : Outcome (Unit {0}))
      → precedes q is_run_pool (configured out port o).0 ≡ true
  unfolding configured start_threads precedes count is_run_pool
  configured-armed out port (goes _ c) = precedes_first q (srand ∷ make_pool ∷ []) _ refl (
      inr (
        precedes_first q (replicate (rounds c.thread_count) create_worker) _
          (count-workers is_run_pool (rounds c.thread_count) refl)
          (inr (precedes_first q (create_heart ∷ signals) _ refl (inl armed)))))
  configured-armed out port (fails c) = refl
  configured-armed out port throws = caught-armed

  pub main-armed :
      (out : Machine) (argv : List Bytes) (c : Configwrap)
      → precedes q is_run_pool (main out argv c).0 ≡ true
  unfolding main count is_run_pool
  main-armed out argv c = precedes_first q (log_prefix (text "bserver") ∷ []) _ refl (
      inr (elim (Bool-cases (out.opens_log (arguments out argv).log_path)) [
        | inl e ↦ rw e (
            precedes_first q
              (set_path (arguments out argv).log_path
                ∷ curl_global_init
                ∷ py_initialize
                ∷ init_threads
                ∷ release_thread
                ∷ [])
              _ refl
              (inr (configured-armed out (arguments out argv).port (configuration out argv c))))
        | inr e ↦ rw e caught-armed
      ]))

pub add_armed : (s : Signal) → 1 ≤ count (is_add s) (create_heart ∷ signals)
unfolding count is_add number
add_armed sigpipe = omega arith
add_armed sigtstp = omega arith
add_armed sigttou = omega arith
add_armed sigttin = omega arith
add_armed sighup = omega arith
add_armed sigquit = omega arith
add_armed sigurg = omega arith
add_armed sigterm = omega arith
add_armed sigint = omega arith

pub wait_armed : 1 ≤ count is_wait (create_heart ∷ signals)
unfolding count is_wait
wait_armed = omega arith

-- A signal that ended the process had not been added.
abbrev pub Unknown : Process → Type 0
Unknown p = (s : Signal) → p.ended ≡ some (killed s) → has (is_add s) p.done ≡ false

unended : (p : Process) → p.ended ≡ none → Unknown p
unended p n s e = absurd (cc)

main-Unknown : (es : List Event) (p : Process) → p.ended ≡ none → Unknown (main_goes es p)
unfolding main_goes perform
main-Unknown [] p n = λ s e. absurd (cc)
main-Unknown (e ∷ es) p n = elim (Bool-cases (returns e p)) [
  | inl can ↦ rw can (λ s i. absurd (cc))
  | inr waits ↦ rw waits (unended p n)
]

exit-Unknown : (x : ExitThread) (p : Process) → p.ended ≡ none → Unknown (exit_goes x p)
unfolding exit_goes run perform
exit-Unknown absent p n = unended p n
exit-Unknown asleep p n = elim (Bool-cases p.stop) [
  | inl t ↦ rw t (λ s i. absurd (cc))
  | inr t ↦ rw t (λ s i. absurd (cc))
]
exit-Unknown (ending [] status) p n = λ s e. absurd (cc)
exit-Unknown (ending (e ∷ es) status) p n = λ s i. absurd (cc)

receive-Unknown : (s : Signal) (p : Process) → p.ended ≡ none → Unknown (receive s p)
unfolding receive
receive-Unknown s p n = elim (Bool-cases (has (is_add s) p.done)) [
  | inl k ↦ rw k (λ t i. absurd (cc))
  | inr k ↦ elim (Bool-cases (p.terminates s)) [
    | inl f ↦ rw (k, f) (λ t i. ground arith)
    | inr f ↦ rw (k, f) (λ t i. absurd (cc))
  ]
]

pub move-Unknown : (m : Move) (p : Process) → p.ended ≡ none → Unknown (move m p)
unfolding move handle_signal
move-Unknown main_moves p n = main-Unknown p.todo p n
move-Unknown exit_moves p n = exit-Unknown p.exit_thread p n
move-Unknown (signal s) p n = receive-Unknown s p n
move-Unknown pool_moves p n = unended p n
move-Unknown (registers m) p n = unended p n

live-Unknown :
    (o : Option Exit) (p r : Process) → Unknown p → (o ≡ none → Unknown r) → Unknown (live o p r)
unfolding live
live-Unknown none p r a b = b refl
live-Unknown (some e) p r a b = a

pub moves-Unknown : (ms : List Move) (p : Process) → Unknown p → Unknown (moves ms p)
unfolding moves step
moves-Unknown [] p u = u
moves-Unknown (m ∷ ms) p u =
    moves-Unknown ms (step m p) (live-Unknown p.ended p (move m p) u (move-Unknown m p))
