-- ===== src/Startup/Signalled.antt =====
-- A signal ends the process of main.cpp.
use bserver.Base.{
  ℕ, suc, ◌+◌, ◌≤◌, ◌≡◌, ◌⊎◌, inl, inr, refl, ap, ◌∙◌, Bool-cases, Bool, true, false, List, [], ◌∷◌,
  ◌++◌, Option, none, some, if◌then◌else◌, arith,
}
use bserver.Startup.{Signal, Event, run}
use bserver.Startup.Ordered.{count}
use bserver.Startup.Ending.{
  Exit, exits, killed, receive, handle_signal, pool_moves, has, is_add, is_wait, is_exit_thread,
  ExitThread, absent, asleep, ending, Process, returns, perform, main_goes, exit_goes, Move,
  main_moves, exit_moves, signal, registers, move, live, step, moves,
}
use bserver.Startup.Armed.{has_snoc, move-Unknown}
use bserver.Startup.Kept.{steps_left, started, own, Kept, move-Inv}

-- How often the thread moves.
unfoldable pub turns : List Move → ℕ
turns [] = 0
turns (exit_moves ∷ ms) = suc (turns ms)
turns (_ ∷ ms) = turns ms

unfoldable pub is_turn : Move → Bool
is_turn exit_moves = true
is_turn _ = false

-- What a move does to the thread after a signal: `x` and `y` are the thread before it and after it.
record Signalled (m : Move) (x : ExitThread) (q : Process) : Type 0 where
  pub stop_set : q.stop ≡ true
  pub is_started : started q.exit_thread ≡ 1
  pub fewer :
      (q.ended ≡ none) → (if is_turn m then 1 else 0) + steps_left q.exit_thread ≤ steps_left x

main-Signalled :
    (es : List Event) (p : Process)
    → p.stop ≡ true
    → started p.exit_thread ≡ 1
    → count is_exit_thread es ≡ 0
    → Signalled main_moves p.exit_thread (main_goes es p)
unfolding main_goes count perform is_turn
main-Signalled [] p s i c = record { stop_set = s; is_started = i; fewer = λ e. omega arith }
main-Signalled (e ∷ es) p s i c = elim (Bool-cases (returns e p)) [
  | inl can ↦ rw can (elim (Bool-cases (is_exit_thread e)) [
    | inl x ↦ absurd (ground arith)
    | inr x ↦ rw x record { stop_set = s; is_started = i; fewer = λ e. omega arith }
  ])
  | inr waits ↦ rw waits record { stop_set = s; is_started = i; fewer = λ e. omega arith }
]

exit-Signalled :
    (x : ExitThread) (p : Process)
    → p.stop ≡ true
    → started p.exit_thread ≡ 1
    → started x ≡ 1
    → count is_exit_thread (own x) ≡ 0
    → Signalled exit_moves x (exit_goes x p)
unfolding exit_goes run perform count started steps_left is_turn
exit-Signalled absent p s n i c = absurd (ground arith)
exit-Signalled asleep p s n i c =
    rw s record { stop_set = refl; is_started = refl; fewer = λ e. omega arith }
exit-Signalled (ending [] status) p s n i c = record {
  stop_set = s;
  is_started = n;
  fewer = λ e. absurd (cc);
}
exit-Signalled (ending (e ∷ es) status) p s n i c = elim (Bool-cases (is_exit_thread e)) [
  | inl x ↦ absurd (ground arith)
  | inr x ↦ rw x record { stop_set = s; is_started = refl; fewer = λ e. omega arith }
]

receive-Signalled :
    (t : Signal) (p : Process)
    → p.stop ≡ true
    → started p.exit_thread ≡ 1
    → Signalled (signal t) p.exit_thread (receive t p)
unfolding receive is_turn
receive-Signalled t p s i = elim (Bool-cases (has (is_add t) p.done)) [
  | inl k ↦ rw k record { stop_set = s; is_started = i; fewer = λ e. omega arith }
  | inr k ↦ elim (Bool-cases (p.terminates t)) [
    | inl f ↦ rw (k, f) record { stop_set = s; is_started = i; fewer = λ e. omega arith }
    | inr f ↦ rw (k, f) record { stop_set = s; is_started = i; fewer = λ e. omega arith }
  ]
]

move-Signalled :
    (m : Move) (p : Process)
    → p.stop ≡ true
    → started p.exit_thread ≡ 1
    → Kept p
    → Signalled m p.exit_thread (move m p)
unfolding move handle_signal is_turn
move-Signalled main_moves p s i k = let once = k.once in main-Signalled p.todo p s i (omega arith)
move-Signalled exit_moves p s i k = exit-Signalled p.exit_thread p s i i k.none_own
move-Signalled (signal t) p s i k = receive-Signalled t p s i
move-Signalled pool_moves p s i k = record {
  stop_set = ground arith;
  is_started = i;
  fewer = λ e. omega arith;
}
move-Signalled (registers m) p s i k = record {
  stop_set = s;
  is_started = i;
  fewer = λ e. omega arith;
}

live-ended : (o : Option Exit) (p q : Process) (x : Exit) → o ≡ some x → live o p q ≡ p
unfolding live
live-ended none p q x e = absurd (cc)
live-ended (some _) p q x e = refl

moves-ended : (ms : List Move) (p : Process) (x : Exit) → p.ended ≡ some x → moves ms p ≡ p
unfolding moves step
moves-ended [] p x e = refl
moves-ended (m ∷ ms) p x e =
    ap (moves ms) (live-ended p.ended p (move m p) x e) ∙ moves-ended ms p x e

live-none : (o : Option Exit) (p q : Process) → o ≡ none → live o p q ≡ q
unfolding live
live-none none p q e = refl
live-none (some _) p q e = absurd (cc)

ended-cases :
    (o : Option Exit)
    → (o ≡ none)
      ⊎ ((status : ℕ) × (o ≡ some (exits status)))
      ⊎ ((s : Signal) × (o ≡ some (killed s)))
ended-cases none = inl refl
ended-cases (some (exits status)) = inr (inl (status, refl))
ended-cases (some (killed s)) = inr (inr (s, refl))

turns-suc : (m : Move) (ms : List Move) → turns (m ∷ ms) ≡ (if is_turn m then 1 else 0) + turns ms
unfolding turns is_turn
turns-suc main_moves ms = grind arith
turns-suc exit_moves ms = grind arith
turns-suc (signal s) ms = grind arith
turns-suc pool_moves ms = grind arith
turns-suc (registers m) ms = grind arith

some_left : (x : ExitThread) → 1 ≤ steps_left x
unfolding steps_left
some_left absent = omega arith
some_left asleep = omega arith
some_left (ending es status) = omega arith

-- The pool runs, all signals are added, and the handler waits for them.
pub record Ready (p : Process) : Type 0 where
  pub kept : Kept p
  pub runs : p.pool_runs ≡ true
  pub added : (s : Signal) → has (is_add s) p.done ≡ true
  pub waited : has is_wait p.done ≡ true
  pub unkilled : (s : Signal) → p.ended ≡ some (killed s) → ⊥

perform-has :
    (q : Event → Bool) (e : Event) (p : Process)
    → has q p.done ≡ true
    → has q (perform e p).done ≡ true
unfolding perform
perform-has q e p h = ground (arith, has_snoc q p.done e)

abbrev Grows : Process → Process → Type 0
Grows p r =
    (r.pool_runs ≡ true)
    × ((q : Event → Bool) → has q p.done ≡ true → has q r.done ≡ true)
    × (p.queued ≡ true → r.queued ≡ true)

main-Grows : (es : List Event) (p : Process) → p.pool_runs ≡ true → Grows p (main_goes es p)
unfolding main_goes perform
main-Grows [] p r = (r, λ q h. h, λ h. h)
main-Grows (e ∷ es) p r = elim (Bool-cases (returns e p)) [
  | inl can ↦ rw can (ground arith, λ q h. ground (arith, has_snoc q p.done e), λ h. h)
  | inr waits ↦ rw waits (r, λ q h. h, λ h. h)
]

exit-Grows : (x : ExitThread) (p : Process) → p.pool_runs ≡ true → Grows p (exit_goes x p)
unfolding exit_goes run perform
exit-Grows absent p r = (r, λ q h. h, λ h. h)
exit-Grows asleep p r = elim (Bool-cases p.stop) [
  | inl t ↦ rw t (r, λ q h. h, λ h. h)
  | inr t ↦ rw t (r, λ q h. h, λ h. h)
]
exit-Grows (ending [] status) p r = (r, λ q h. h, λ h. h)
exit-Grows (ending (e ∷ es) status) p r =
    (ground arith, λ q h. ground (arith, has_snoc q p.done e), λ h. h)

receive-Grows : (s : Signal) (p : Process) → p.pool_runs ≡ true → Grows p (receive s p)
unfolding receive
receive-Grows s p r = elim (Bool-cases (has (is_add s) p.done)) [
  | inl k ↦ rw k (r, λ q h. h, λ h. refl)
  | inr k ↦ elim (Bool-cases (p.terminates s)) [
    | inl f ↦ rw (k, f) (r, λ q h. h, λ h. h)
    | inr f ↦ rw (k, f) (r, λ q h. h, λ h. h)
  ]
]

move-Grows : (m : Move) (p : Process) → p.pool_runs ≡ true → Grows p (move m p)
unfolding move handle_signal
move-Grows main_moves p r = main-Grows p.todo p r
move-Grows exit_moves p r = exit-Grows p.exit_thread p r
move-Grows (signal s) p r = receive-Grows s p r
move-Grows pool_moves p r = (r, λ q h. h, λ h. h)
move-Grows (registers m) p r = (r, λ q h. h, λ h. h)

move-Ready : (m : Move) (p : Process) → p.ended ≡ none → Ready p → Ready (move m p)
move-Ready m p n v =
    let (runs, grows, queue) = move-Grows m p v.runs in
    record {
      kept = move-Inv m p v.kept;
      runs = runs;
      added = λ s. grows (is_add s) (v.added s);
      waited = grows is_wait v.waited;
      unkilled = λ s e.
          let unknown = move-Unknown m p n s e in
          let known = grows (is_add s) (v.added s) in absurd (cc);
    }

ended_one :
    (ms : List Move) (p : Process) (status : ℕ)
    → p.ended ≡ some (exits status)
    → Kept p
    → (moves ms p).ended ≡ some (exits 1)
ended_one ms p status e k =
    ap (λ q. q.ended) (moves-ended ms p (exits status) e)
    ∙ e
    ∙ ap (λ n. some (exits n)) (k.failed status e)

started_of : (p : Process) → Ready p → started p.exit_thread ≡ 1
started_of p v =
    let k = v.kept in let first = k.first in let once = k.once in let runs = v.runs in ground arith

-- A process that was signalled has ended once its thread has moved often enough.
signalled_ends :
    (ms : List Move) (p : Process)
    → p.stop ≡ true
    → Ready p
    → ((p.ended ≡ none) → steps_left p.exit_thread ≤ turns ms)
    → (moves ms p).ended ≡ some (exits 1)
unfolding moves step turns
signalled_ends [] p s v few = elim (ended-cases p.ended) [
  | inl n ↦ let l = some_left p.exit_thread in let f = few n in absurd (omega arith)
  | inr (inl (status, e)) ↦ ended_one [] p status e v.kept
  | inr (inr (t, e)) ↦ absurd (v.unkilled t e)
]
signalled_ends (m ∷ ms) p s v few = elim (ended-cases p.ended) [
  | inl n ↦
      let w = move-Signalled m p s (started_of p v) v.kept in
      let f = few n in
      let t = turns-suc m ms in
      let fewer = w.fewer in
      ap (λ q. (moves ms q).ended) (live-none p.ended p (move m p) n)
      ∙ signalled_ends ms (move m p) w.stop_set (move-Ready m p n v)
          (λ e. let g = fewer e in omega arith)
  | inr (inl (status, e)) ↦ ended_one (m ∷ ms) p status e v.kept
  | inr (inr (t, e)) ↦ absurd (v.unkilled t e)
]

stop-handle_signal : (p : Process) → p.queued ≡ true → Ready p → (move pool_moves p).stop ≡ true
unfolding move handle_signal
stop-handle_signal p queued v = let r = v.runs in let w = v.waited in ground arith

-- A queued signal is handled, and then ends the process.
queued_ends :
    (ms later : List Move) (p : Process)
    → p.queued ≡ true
    → Ready p
    → 6 ≤ turns later
    → (moves (ms ++ (pool_moves ∷ later)) p).ended ≡ some (exits 1)
unfolding moves step
queued_ends [] later p queued v enough = elim (ended-cases p.ended) [
  | inl n ↦
      let few = v.kept.few in
      ap (λ q. (moves later q).ended) (live-none p.ended p (move pool_moves p) n)
      ∙ signalled_ends later (move pool_moves p) (stop-handle_signal p queued v)
          (move-Ready pool_moves p n v)
          (λ e. let f = (move-Ready pool_moves p n v).kept.few in omega arith)
  | inr (inl (status, e)) ↦ ended_one (pool_moves ∷ later) p status e v.kept
  | inr (inr (t, e)) ↦ absurd (v.unkilled t e)
]
queued_ends (m ∷ ms) later p queued v enough = elim (ended-cases p.ended) [
  | inl n ↦
      ap (λ q. (moves (ms ++ (pool_moves ∷ later)) q).ended) (live-none p.ended p (move m p) n)
      ∙ queued_ends ms later (move m p) ((move-Grows m p v.runs).2 queued) (move-Ready m p n v)
          enough
  | inr (inl (status, e)) ↦ ended_one (m ∷ (ms ++ (pool_moves ∷ later))) p status e v.kept
  | inr (inr (t, e)) ↦ absurd (v.unkilled t e)
]

queued-receive : (s : Signal) (p : Process) → Ready p → (move (signal s) p).queued ≡ true
unfolding move receive
queued-receive s p v = rw (v.added s) refl

pub signal_ends :
    (s : Signal) (ms later : List Move) (p : Process)
    → Ready p
    → 6 ≤ turns later
    → (moves (signal s ∷ (ms ++ (pool_moves ∷ later))) p).ended ≡ some (exits 1)
unfolding moves step
signal_ends s ms later p v enough = elim (ended-cases p.ended) [
  | inl n ↦
      ap (λ q. (moves (ms ++ (pool_moves ∷ later)) q).ended)
        (live-none p.ended p (move (signal s) p) n)
      ∙ queued_ends ms later (move (signal s) p) (queued-receive s p v)
          (move-Ready (signal s) p n v) enough
  | inr (inl (status, e)) ↦ ended_one (signal s ∷ (ms ++ (pool_moves ∷ later))) p status e v.kept
  | inr (inr (t, e)) ↦ absurd (v.unkilled t e)
]
