-- ===== src/Startup/Refused.antt =====
-- Whether `main` of main.cpp comes to start the thread that waits for the end, and why not.
use bserver.Base.{
  ℕ, zero, suc, ◌+◌, ◌≤◌, ◌≡◌, ◌⊎◌, inl, inr, refl, ◌∙◌, Bool-cases, Bool, true, false, List, [],
  ◌∷◌, ◌++◌, Bytes, text, replicate, arith,
}
use bserver.Config.Action.{Configwrap, Outcome, goes, fails, throws}
use bserver.Startup.{
  Event, create_worker, create_heart, print_exception, srand, make_pool, log_prefix, set_path,
  curl_global_init, py_initialize, init_threads, release_thread, signals, caught, listening_port,
  Machine, arguments, rounds, Run, open_server, start_threads, configured, main,
}
use bserver.Startup.Ordered.{count, precedes, configuration}
use bserver.Startup.Ending.{is_exit_thread, is_run_pool, is_join_exit}

unfoldable pub is_print : Event → Bool
is_print print_exception = true
is_print _ = false

-- What is to come of a `main` that starts the thread, and of one that does not.
pub record Serves (es : List Event) : Type 0 where
  pub awaits : 1 ≤ count is_join_exit es
  pub once : count is_exit_thread es ≡ 1
  pub first : precedes is_exit_thread is_run_pool es ≡ true

pub record Refused (r : Run) : Type 0 where
  pub never : count is_exit_thread r.0 ≡ 0
  pub no_pool : count is_run_pool r.0 ≡ 0
  pub reason : (r.1 ≡ 1) ⊎ ((r.1 ≡ 0) × (1 ≤ count is_print r.0))

pub count_append :
    (p : Event → Bool) (es fs : List Event) → count p (es ++ fs) ≡ count p es + count p fs
unfolding count
count_append p [] fs = grind arith
count_append p (e ∷ es) fs = let h = count_append p es fs in ground (arith, h)

precedes_append :
    (es fs : List Event)
    → count is_exit_thread es ≡ 0
    → count is_run_pool es ≡ 0
    → precedes is_exit_thread is_run_pool (es ++ fs) ≡ precedes is_exit_thread is_run_pool fs
unfolding count precedes
precedes_append [] fs a b = refl
precedes_append (e ∷ es) fs a b = ground (arith, precedes_append es fs)

-- Calls of which none starts the thread or runs the pool change nothing of it.
after-cases :
    (es : List Event) (r : Run)
    → count is_exit_thread es ≡ 0
    → count is_run_pool es ≡ 0
    → Serves r.0 ⊎ Refused r
    → Serves (es ++ r.0) ⊎ Refused (es ++ r.0, r.1)
after-cases es r a b (inl s) = inl record {
  awaits = let h = s.awaits in rw (count_append is_join_exit es r.0) (omega arith);
  once = let h = s.once in rw (count_append is_exit_thread es r.0) (omega arith);
  first = precedes_append es r.0 a b ∙ s.first;
}
after-cases es r a b (inr s) = inr record {
  never = let h = s.never in rw (count_append is_exit_thread es r.0) (omega arith);
  no_pool = let h = s.no_pool in rw (count_append is_run_pool es r.0) (omega arith);
  reason = elim s.reason [
    | inl one ↦ inl one
    | inr (zero_then, printed) ↦ inr (zero_then, rw (count_append is_print es r.0) (omega arith))
  ];
}

pub count-workers :
    (p : Event → Bool) (n : ℕ) → p create_worker ≡ false → count p (replicate n create_worker) ≡ 0
unfolding count
count-workers p zero e = refl
count-workers p (suc n) e = rw e (count-workers p n e)

caught-Refused : Refused caught
unfolding count is_exit_thread is_run_pool is_print
caught-Refused = record { never = refl; no_pool = refl; reason = inr (refl, omega arith) }

open_server-cases :
    (out : Machine) (port : ℕ) (c : Configwrap)
    → Serves (open_server out port c).0 ⊎ Refused (open_server out port c)
unfolding open_server count precedes is_exit_thread is_run_pool is_join_exit is_print
open_server-cases out port c = elim (Bool-cases (out.binds (listening_port port c))) [
  | inl b ↦ rw b (inl record { awaits = omega arith; once = refl; first = refl })
  | inr b ↦ rw b (inr caught-Refused)
]

configured-cases :
    (out : Machine) (port : ℕ) (o : Outcome (Unit {0}))
    → Serves (configured out port o).0 ⊎ Refused (configured out port o)
unfolding configured start_threads count is_exit_thread is_run_pool is_print
configured-cases out port (goes _ c) = after-cases (srand ∷ make_pool ∷ []) _ refl refl (
    after-cases (replicate (rounds c.thread_count) create_worker) _
      (count-workers is_exit_thread (rounds c.thread_count) refl)
      (count-workers is_run_pool (rounds c.thread_count) refl)
      (after-cases (create_heart ∷ signals) _ refl refl (open_server-cases out port c)))
configured-cases out port (fails c) = inr record { never = refl; no_pool = refl; reason = inl refl }
configured-cases out port throws = inr caught-Refused

pub main-cases :
    (out : Machine) (argv : List Bytes) (c : Configwrap)
    → Serves (main out argv c).0 ⊎ Refused (main out argv c)
unfolding main count is_exit_thread is_run_pool
main-cases out argv c =
    after-cases (log_prefix (text "bserver") ∷ []) _ refl refl
      (elim (Bool-cases (out.opens_log (arguments out argv).log_path)) [
        | inl e ↦ rw e (
            after-cases
              (set_path (arguments out argv).log_path
                ∷ curl_global_init
                ∷ py_initialize
                ∷ init_threads
                ∷ release_thread
                ∷ [])
              _ refl refl
              (configured-cases out (arguments out argv).port (configuration out argv c)))
        | inr e ↦ rw e (inr caught-Refused)
      ])
