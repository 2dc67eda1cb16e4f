-- ===== src/Sender/Lines.antt =====
-- The commands of include/system_tool.h: which senders a line starts, each in a thread of its own, before
-- the next line is read. `split` takes spaces together, and `atoi` gives a 32-bit pattern.
use bserver.Base.{
  ℕ, zero, suc, ◌≡◌, ◌≢◌, refl, List, [], ◌∷◌, ◌++◌, map, Bytes, bytes_eq, bytes_eq_iff,
  bytes_eq_refl, text, is_empty, All, if◌then◌else◌, arith,
}
use bserver.Sender.{int_rounds}

-- What is run in a thread: one of the senders, with its arguments, or `test_send`, whose body is empty.
pub data Job : Type 0 where
  send_loop : (ip port content cid_prex : Bytes) (count i start num cmd : ℕ) → Job
  send_specify : (ip port content cid_prex : Bytes) (count i cmd : ℕ) → Job
  send_service_request : (ip port content cid_prex : Bytes) (count i cmd : ℕ) → Job
  send_nothing : (ip port content : Bytes) (i : ℕ) → Job

pub record Reader : Type 0 where
  pub split : Bytes → List Bytes
  pub atoi : Bytes → ℕ

-- The loop that starts threads: `rounds` are left, from `i` on.
unfoldable pub jobs : (ℕ → Job) → (rounds i : ℕ) → List Job
jobs job zero i = []
jobs job (suc rounds) i = job i ∷ jobs job rounds (suc i)

unfoldable pub loop_jobs : Reader → List Bytes → List Job
unfolding jobs
loop_jobs r (_ ∷ ip ∷ port ∷ content ∷ prex ∷ count ∷ loop_num ∷ start ∷ num ∷ cmd ∷ []) =
    jobs
      (λ i.
        send_loop ip port content prex (r.atoi loop_num) i (r.atoi start) (r.atoi num) (r.atoi cmd))
      (int_rounds (r.atoi count)) 0
loop_jobs r _ = []

unfoldable pub specify_jobs : Reader → List Bytes → List Job
unfolding jobs
specify_jobs r (_ ∷ ip ∷ port ∷ content ∷ prex ∷ count ∷ loop_num ∷ cmd ∷ []) =
    jobs (λ i. send_specify ip port content prex (r.atoi loop_num) i (r.atoi cmd))
      (int_rounds (r.atoi count)) 0
specify_jobs r _ = []

unfoldable pub service_jobs : Reader → List Bytes → List Job
unfolding jobs
service_jobs r (_ ∷ ip ∷ port ∷ content ∷ prex ∷ count ∷ loop_num ∷ cmd ∷ []) =
    jobs (λ i. send_service_request ip port content prex (r.atoi loop_num) i (r.atoi cmd))
      (int_rounds (r.atoi count)) 0
service_jobs r _ = []

unfoldable pub nothing_jobs : Reader → List Bytes → List Job
unfolding jobs
nothing_jobs r (_ ∷ ip ∷ port ∷ content ∷ count ∷ []) =
    jobs (λ i. send_nothing ip port content i) (int_rounds (r.atoi count)) 0
nothing_jobs r _ = []

-- `system_ls`, `system_ss` and `system_sr`, given `system_params`.
unfoldable pub system_ls : Reader → Bytes → List Job
unfolding loop_jobs
system_ls r params = if is_empty params then [] else loop_jobs r (r.split params)

unfoldable pub system_ss : Reader → Bytes → List Job
unfolding specify_jobs
system_ss r params = if is_empty params then [] else specify_jobs r (r.split params)

unfoldable pub system_sr : Reader → Bytes → List Job
unfolding service_jobs
system_sr r params = if is_empty params then [] else service_jobs r (r.split params)

-- What one line of `command` starts, given its parts.
unfoldable pub line_jobs : Reader → List Bytes → List Job
unfolding nothing_jobs loop_jobs
line_jobs r [] = []
line_jobs r (name ∷ args) =
    if bytes_eq name (text "cs")
    then nothing_jobs r (name ∷ args)
    else if bytes_eq name (text "ls")
    then loop_jobs r (name ∷ args)
    else []

-- The lines up to `quit`, or to the end of the input: what each of them starts.
unfoldable pub command : Reader → List Bytes → List (List Job)
unfolding line_jobs
command r [] = []
command r (l ∷ ls) =
    let rest = command r ls in
    if bytes_eq l (text "quit") then [] else line_jobs r (r.split l) ∷ rest

-- Behind `quit` no line is read, and every line before it starts what it says.
command_quit :
    (r : Reader) (before behind : List Bytes)
    → All (λ l. l ≢ text "quit") before
    → command r (before ++ (text "quit" ∷ behind)) ≡ map (λ l. line_jobs r (r.split l)) before
unfolding command
command_quit r [] behind h = rw (bytes_eq_refl (text "quit")) refl
command_quit r (l ∷ before) behind (n, h) =
    ground (arith, bytes_eq_iff l (text "quit"), command_quit r before behind h)
