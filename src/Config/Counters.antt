-- ===== src/Config/Counters.antt =====
-- The ids of include/configwrap.h.
use bserver.Base.{ℕ, zero, suc, ◌≤◌, ◌<◌, List, [], ◌∷◌, All, arith}
use bserver.Config.{next_id, max_int64}

-- The ids of `n` calls, and `id_` after them.
unfoldable pub take_ids : ℕ → ℕ → List ℕ × ℕ
take_ids zero id = ([], id)
take_ids (suc n) id = let (i, id') = next_id id in let (is, id'') = take_ids n id' in (i ∷ is, id'')

first_below : (id : ℕ) → id ≤ max_int64 → (next_id id).0 < max_int64
unfolding next_id
first_below id h = ground arith

next_fits : (id : ℕ) → id ≤ max_int64 → (next_id id).1 ≤ max_int64
unfolding next_id
next_fits id h = ground arith

-- From `id_`, which fits an `int64_t`, every number of calls gives ids below 2 ^ 63 - 1, and leaves an
-- `id_` that fits: the increment never overflows.
pub take_ids_bounds :
    (n id : ℕ)
    → id ≤ max_int64
    → All (λ i. i < max_int64) (take_ids n id).0 × ((take_ids n id).1 ≤ max_int64)
unfolding take_ids
take_ids_bounds zero id h = (tt, h)
take_ids_bounds (suc n) id h =
    let (a, b) = take_ids_bounds n (next_id id).1 (next_fits id h) in ((first_below id h, a), b)
