-- ===== src/Startup/Alone.antt =====
-- How main.cpp ends where `main` is left before it starts the thread that waits for the end.
use bserver.Base.{
  ℕ, ◌+◌, ◌≡◌, inl, inr, refl, Bool-cases, Bool, false, List, [], ◌∷◌, Option, none, some, arith,
}
use bserver.Peers.Client.{ClientMap}
use bserver.Startup.{Signal, Event, Run}
use bserver.Startup.Ordered.{count}
use bserver.Startup.Ending.{
  Exit, exits, receive, handle_signal, pool_moves, has, is_add, is_exit_thread, is_run_pool,
  ExitThread, absent, asleep, ending, Process, process, returns, perform, main_goes, exit_goes,
  Move, main_moves, exit_moves, signal, registers, move, live, step, moves,
}
use bserver.Startup.Kept.{started}
use bserver.Startup.Refused.{is_print, Refused, count_append}

-- A process whose `main` does not start the thread: `printed` exceptions are printed in all.
pub record Alone (printed status : ℕ) (todo : List Event) (p : Process) : Type 0 where
  pub no_thread : started p.exit_thread ≡ 0
  pub never : count is_exit_thread todo ≡ 0
  pub no_pool : count is_run_pool todo ≡ 0
  pub not_running : p.pool_runs ≡ false
  pub returned : p.status ≡ status
  pub total : count is_print p.done + count is_print todo ≡ printed
  pub over : (s : ℕ) → p.ended ≡ some (exits s) → (s ≡ status) × (count is_print p.done ≡ printed)

perform-Alone :
    {printed status : ℕ} (e : Event) (es : List Event) (p : Process)
    → Alone printed status (e ∷ es) p
    → p.ended ≡ none
    → Alone printed status es (perform e (record p { todo = es }))
unfolding perform count
perform-Alone e es p v n =
    let never = v.never in
    let no_pool = v.no_pool in
    let starts_not : is_exit_thread e ≡ false = ground arith in
    let runs_not : is_run_pool e ≡ false = ground arith in
    let snoc = count_append is_print p.done (e ∷ []) in
    let total = v.total in
    record {
      no_thread = rw starts_not v.no_thread;
      never = ground arith;
      no_pool = ground arith;
      not_running = rw runs_not v.not_running;
      returned = v.returned;
      total = ground arith;
      over = λ s i. absurd (cc);
    }

main-Alone :
    {printed status : ℕ} (es : List Event) (p : Process)
    → Alone printed status es p
    → Alone printed status p.todo p
    → p.ended ≡ none
    → Alone printed status (main_goes es p).todo (main_goes es p)
unfolding main_goes perform count
main-Alone [] p v k n = record {
  no_thread = k.no_thread;
  never = k.never;
  no_pool = k.no_pool;
  not_running = k.not_running;
  returned = k.returned;
  total = k.total;
  over = λ s e. let r = v.returned in let t = v.total in ground arith;
}
main-Alone (e ∷ es) p v k n = elim (Bool-cases (returns e p)) [
  | inl can ↦ rw can (perform-Alone e es p v n)
  | inr waits ↦ rw waits k
]

exit-Alone :
    {printed status : ℕ} (x : ExitThread) (p : Process)
    → started x ≡ 0
    → Alone printed status p.todo p
    → Alone printed status (exit_goes x p).todo (exit_goes x p)
unfolding exit_goes started
exit-Alone absent p i k = k
exit-Alone asleep p i k = absurd (ground arith)
exit-Alone (ending es status) p i k = absurd (ground arith)

receive-Alone :
    {printed status : ℕ} (s : Signal) (p : Process)
    → Alone printed status p.todo p
    → Alone printed status (receive s p).todo (receive s p)
unfolding receive
receive-Alone s p k = elim (Bool-cases (has (is_add s) p.done)) [
  | inl known ↦ rw known record {
    no_thread = k.no_thread;
    never = k.never;
    no_pool = k.no_pool;
    not_running = k.not_running;
    returned = k.returned;
    total = k.total;
    over = k.over;
  }
  | inr unknown ↦ elim (Bool-cases (p.terminates s)) [
    | inl fatal ↦
        rw (unknown, fatal)
          record {
            no_thread = k.no_thread;
            never = k.never;
            no_pool = k.no_pool;
            not_running = k.not_running;
            returned = k.returned;
            total = k.total;
            over = λ t e. absurd (cc);
          }
    | inr ignored ↦ rw (unknown, ignored) k
  ]
]

move-Alone :
    {printed status : ℕ} (m : Move) (p : Process)
    → p.ended ≡ none
    → Alone printed status p.todo p
    → Alone printed status (move m p).todo (move m p)
unfolding move handle_signal
move-Alone main_moves p n k = main-Alone p.todo p k k n
move-Alone exit_moves p n k = exit-Alone p.exit_thread p k.no_thread k
move-Alone (signal s) p n k = receive-Alone s p k
move-Alone pool_moves p n k = record {
  no_thread = k.no_thread;
  never = k.never;
  no_pool = k.no_pool;
  not_running = k.not_running;
  returned = k.returned;
  total = k.total;
  over = k.over;
}
move-Alone (registers m) p n k = record {
  no_thread = k.no_thread;
  never = k.never;
  no_pool = k.no_pool;
  not_running = k.not_running;
  returned = k.returned;
  total = k.total;
  over = k.over;
}

live-Alone :
    {printed status : ℕ} (o : Option Exit) (p q : Process)
    → Alone printed status p.todo p
    → (o ≡ none → Alone printed status q.todo q)
    → Alone printed status (live o p q).todo (live o p q)
unfolding live
live-Alone none p q k l = l refl
live-Alone (some s) p q k l = k

pub moves-Alone :
    {printed status : ℕ} (ms : List Move) (p : Process)
    → Alone printed status p.todo p
    → Alone printed status (moves ms p).todo (moves ms p)
unfolding moves step
moves-Alone [] p k = k
moves-Alone (m ∷ ms) p k =
    moves-Alone ms (step m p) (live-Alone p.ended p (move m p) k (λ n. move-Alone m p n k))

pub Refused-Alone :
    (r : Run) (m : ClientMap) (terminates : Signal → Bool)
    → Refused r
    → Alone (count is_print r.0) r.1 r.0 (process r m terminates)
unfolding process started count
Refused-Alone r m terminates v = record {
  no_thread = refl;
  never = v.never;
  no_pool = v.no_pool;
  not_running = refl;
  returned = refl;
  total = grind arith;
  over = λ s e. absurd (cc);
}
