-- ===== src/Pool.antt =====
-- include/io_service_provide.h: the pool of `io_service` objects, handed out in turn.
mod Tests
use native.Mathlib.Nat.{mod-add-mod, mod-eq_of_lt, mod-lt, mod_self, zero-mod}
use native.Mathlib.Decide.{dec_lt}
use bserver.Base.{
  ℕ, zero, suc, ◌+◌, ◌*◌, ◌%◌, ◌≤◌, ◌<◌, ◌≡◌, refl, sym, ap, ◌∙◌, List, [], ◌∷◌, ◌==◌,
  if◌then◌else◌, arith,
}

-- The pool has `size` services; its constructor makes at least one, unless the machine reports none.
pub record IoServiceProvide : Type 0 where
  pub size : ℕ
  pub next_io_service : ℕ

-- `hardware` is `boost::thread::hardware_concurrency()`.
unfoldable pub io_service_provide : ℕ → ℕ → IoServiceProvide
io_service_provide pool_size hardware = record {
  size = if pool_size == 0 then hardware else pool_size;
  next_io_service = 0;
}

-- The index of the service, and the pool after the call.
unfoldable pub get_io_service : IoServiceProvide → ℕ × IoServiceProvide
get_io_service p =
    let next = p.next_io_service + 1 in
    (p.next_io_service, record p { next_io_service = if next == p.size then 0 else next })

-- The services of `n` calls, and the pool after them.
unfoldable pub take_services : ℕ → IoServiceProvide → List ℕ × IoServiceProvide
take_services zero p = ([], p)
take_services (suc n) p =
    let (i, p') = get_io_service p in let (is, p'') = take_services n p' in (i ∷ is, p'')

-- The services in turn, from `i` on.
unfoldable pub in_turn : (n i size : ℕ) → List ℕ
in_turn zero i size = []
in_turn (suc n) i size = (i % size) ∷ in_turn n (i + 1) size

next_service :
    (p : IoServiceProvide) (i : ℕ)
    → 1 ≤ p.size
    → p.next_io_service ≡ i % p.size
    → (get_io_service p).1.next_io_service ≡ (i + 1) % p.size
unfolding get_io_service
next_service p i h e = elim (dec_lt (p.next_io_service + 1) p.size) [
  | yes below ↦ ground (arith, mod-add-mod i p.size 1, mod-eq_of_lt below, e)
  | no last ↦ ground (arith, mod-add-mod i p.size 1, mod-lt i h, mod_self p.size, e)
]

first-get_io_service : (p : IoServiceProvide) → (get_io_service p).0 ≡ p.next_io_service
unfolding get_io_service
first-get_io_service p = refl

size-get_io_service : (p : IoServiceProvide) → (get_io_service p).1.size ≡ p.size
unfolding get_io_service
size-get_io_service p = refl

take-in_turn :
    (n i : ℕ) (p : IoServiceProvide)
    → 1 ≤ p.size
    → p.next_io_service ≡ i % p.size
    → (take_services n p).0 ≡ in_turn n i p.size
unfolding take_services in_turn
take-in_turn zero i p h e = refl
take-in_turn (suc n) i p h e =
    let q = (get_io_service p).1 in
    cc (
      e,
      first-get_io_service p,
      take-in_turn n (i + 1) q (rw (size-get_io_service p) h)
          (next_service p i h e ∙ ap (λ k. (i + 1) % k) (sym (size-get_io_service p))),
      size-get_io_service p,
    )

-- On a machine that reports a processor, the pool hands out its services in turn, from the first on and
-- modulo their number, over any number of calls.
pub take_services_lem :
    (pool_size hardware n : ℕ)
    → 1 ≤ hardware
    → let p = io_service_provide pool_size hardware in (take_services n p).0 ≡ in_turn n 0 p.size
unfolding io_service_provide
take_services_lem pool_size hardware n h = take-in_turn n 0 _ (ground arith) (sym (zero-mod _))
