-- ===== src/Peers/Registry.antt =====
-- The two tables of `peer_handle_map_for_client` in src/peer_handle_map.cpp agree.
use bserver.Base.{
  ℕ, ◌+◌, ◌-◌, ◌≤◌, ◌≡◌, refl, Bool, true, false, Bool-cases, List, [], ◌∷◌, ◌++◌, ◌||◌, Bytes,
  is_empty, bytes_eq, bytes_eq_iff, All, arith, if◌then◌else◌, inl, inr, none, some, is_some,
}
use bserver.Base.Maps.{bytes_key, lookup, erase, lookup-insert}
use bserver.Peers
use bserver.Peers.{SessionPtr, PeerMap, get-insert, get-erase}
use bserver.Peers.Names.{name-injective}
use bserver.Peers.Client.{
  ClientMap, no_clients, name, listed, relist, enter, index, remove_first, fix_set, fix_get, get,
  remove,
}

-- How often a name stands in a list, and whether it has a session: 0 or 1.
unfoldable pub occurs : Bytes → List Bytes → ℕ
occurs k [] = 0
occurs k (n ∷ l) = (if bytes_eq n k then 1 else 0) + occurs k l

abbrev pub one_if : Bool → ℕ
one_if true = 1
one_if false = 0

abbrev pub alive : Bytes → ClientMap → ℕ
alive k m = one_if (is_some (fix_get k m))

abbrev pub IsName : Bytes → Bytes → Type 0
IsName s n = (i : ℕ) × (n ≡ name s i)

-- A server's list holds the names of its live sessions, each once, and no other name.
pub record Agree (m : ClientMap) : Type 0 where
  pub once : (s : Bytes) (i : ℕ) → occurs (name s i) (listed s m) ≡ alive (name s i) m
  pub names : (s : Bytes) → All (IsName s) (listed s m)

pub occurs-snoc :
    (k n : Bytes) (l : List Bytes)
    → occurs k (l ++ (n ∷ [])) ≡ occurs k l + (if bytes_eq n k then 1 else 0)
unfolding occurs
occurs-snoc k n [] = omega arith
occurs-snoc k n (x ∷ l) = omega (arith, occurs-snoc k n l)

occurs-remove_first :
    (k n : Bytes) (l : List Bytes)
    → occurs k (remove_first n l) ≡ (if bytes_eq n k then occurs k l - 1 else occurs k l)
unfolding occurs remove_first
occurs-remove_first k n [] = ground arith
occurs-remove_first k n (x ∷ l) =
    ground (arith, occurs-remove_first k n l, bytes_eq_iff x n, bytes_eq_iff x k, bytes_eq_iff n k)

pub All-snoc :
    (P : Bytes → Type 0) (l : List Bytes) (n : Bytes) → All P l → P n → All P (l ++ (n ∷ []))
All-snoc P [] n h k = (k, tt)
All-snoc P (x ∷ l) n h k = (h.0, All-snoc P l n h.1 k)

All-remove_first :
    (P : Bytes → Type 0) (n : Bytes) (l : List Bytes) → All P l → All P (remove_first n l)
unfolding remove_first
All-remove_first P n [] h = tt
All-remove_first P n (x ∷ l) h = elim (Bool-cases (bytes_eq x n)) [
  | inl e ↦ rw e h.1
  | inr e ↦ rw e (h.0, All-remove_first P n l h.1)
]

pub listed-relist :
    (s t : Bytes) (l : List Bytes) (m : ClientMap)
    → listed t (relist s l m) ≡ (if bytes_eq s t then l else listed t m)
unfolding listed relist
listed-relist s t l m = ground (arith, lookup-insert s t l m.client_list)

name_of_other :
    (s t : Bytes) (i j : ℕ) → bytes_eq s t ≡ false → bytes_eq (name s i) (name t j) ≡ false
name_of_other s t i j e =
    ground (arith, bytes_eq_iff (name s i) (name t j), name-injective s t i j, bytes_eq_iff s t)

-- The state after a change of one name `n` of the server `s`: its list is `l`, its session `p`.
module _ (m m' : ClientMap) (s : Bytes) (i : ℕ) (l : List Bytes) (p : SessionPtr) (old : Agree m)
    (lists : (t : Bytes) → listed t m' ≡ (if bytes_eq s t then l else listed t m))
    (sessions : (k : Bytes) → fix_get k m' ≡ (if bytes_eq (name s i) k then p else fix_get k m))
    (counts : (k : Bytes)
      → occurs k l ≡ (if bytes_eq (name s i) k then one_if (is_some p) else occurs k (listed s m)))
    (named : All (IsName s) l) where
  change-once : (t : Bytes) (j : ℕ) → occurs (name t j) (listed t m') ≡ alive (name t j) m'
  change-once t j = elim (Bool-cases (bytes_eq s t)) [
    | inl e ↦
        ground
          (arith, lists t, sessions (name t j), counts (name t j), old.once s j, bytes_eq_iff s t)
    | inr e ↦ ground (arith, lists t, sessions (name t j), old.once t j, name_of_other s t i j)
  ]

  change-names : (t : Bytes) → All (IsName t) (listed t m')
  change-names t = elim (Bool-cases (bytes_eq s t)) [
    | inl e ↦ rw (lists t, e, ← (bytes_eq_iff s t).0 e) named
    | inr e ↦ rw (lists t, e) (old.names t)
  ]

  pub change-Agree : Agree m'
  change-Agree = record { once = change-once; names = change-names }

pub listed-enter :
    (t k : Bytes) (p : SessionPtr) (m : ClientMap) → listed t (enter k p m) ≡ listed t m
unfolding listed enter
listed-enter t k p m = refl

occurs-le-one : (m : ClientMap) (s : Bytes) (i : ℕ) → Agree m → occurs (name s i) (listed s m) ≤ 1
occurs-le-one m s i v = ground (arith, v.once s i)

pub Agree-no_clients : Agree no_clients
unfolding listed fix_get Peers.get
Agree-no_clients = record {
  once = λ s i. (unfold occurs lookup in refl);
  names = λ s. (unfold lookup in tt);
}

module _ (m : ClientMap) (s : Bytes) (i : ℕ) (v : Agree m) where
  -- Moving a name to the end of its list.
  occurs-moved :
      (k : Bytes)
      → occurs k (remove_first (name s i) (listed s m) ++ (name s i ∷ []))
        ≡ (if bytes_eq (name s i) k then 1 else occurs k (listed s m))
  occurs-moved k = ground (
    arith,
    occurs-snoc k (name s i) (remove_first (name s i) (listed s m)),
    occurs-remove_first k (name s i) (listed s m),
    occurs-le-one m s i v,
    bytes_eq_iff (name s i) k,
  )

  occurs-removed :
      (k : Bytes)
      → occurs k (remove_first (name s i) (listed s m))
        ≡ (if bytes_eq (name s i) k then 0 else occurs k (listed s m))
  occurs-removed k = ground (
    arith,
    occurs-remove_first k (name s i) (listed s m),
    occurs-le-one m s i v,
    bytes_eq_iff (name s i) k,
  )

  -- A session that connects under a fixed name, also in place of an older one.
  pub fix_set-Agree : (h : ℕ) → Agree (fix_set s (name s i) (some h) m).1
  unfolding fix_set
  fix_set-Agree h = elim (Bool-cases (is_empty s || is_empty (name s i))) [
    | inl e ↦ rw e v
    | inr e ↦ rw e (
        change-Agree m _ s i (remove_first (name s i) (listed s m) ++ (name s i ∷ [])) (some h) v
          (λ t. listed-relist s t _ (enter (name s i) (some h) m))
          (λ k. unfold fix_get enter relist in get-insert (name s i) k (some h) m.map) occurs-moved
          (All-snoc (IsName s) _ (name s i)
            (All-remove_first (IsName s) (name s i) (listed s m) (v.names s)) (i, refl)))
  ]

  pub remove-Agree : Agree (remove s (name s i) m)
  unfolding remove
  remove-Agree =
      (change-Agree m _ s i (remove_first (name s i) (listed s m)) none v
        (λ t. listed-relist s t _ (record m { map = erase (name s i) m.map }))
        (λ k. unfold fix_get relist in get-erase (name s i) k m.map) occurs-removed
        (All-remove_first (IsName s) (name s i) (listed s m) (v.names s)))

-- Entries that read as before: a null pointer for a missing name, an empty list for a missing server.
same-Agree :
    (m m' : ClientMap)
    → ((t : Bytes) → listed t m' ≡ listed t m)
    → ((k : Bytes) → fix_get k m' ≡ fix_get k m)
    → Agree m
    → Agree m'
same-Agree m m' lists sessions v = record {
  once = λ t i. ground (arith, lists t, sessions (name t i), v.once t i);
  names = λ t. rw (lists t) (v.names t);
}

listed_same : (m : ClientMap) (s t : Bytes) → listed t (relist s (listed s m) m) ≡ listed t m
listed_same m s t = ground (arith, listed-relist s t (listed s m) m, bytes_eq_iff s t)

pub get-Agree : (m : ClientMap) (r : ℕ) (s : Bytes) → Agree m → Agree (get r s m).1
unfolding get
get-Agree m r s v = ground (
  arith,
  same-Agree m (relist s (listed s m) m) (listed_same m s) (λ k. unfold fix_get relist in refl) v,
)

pub fix_get-index : (m : ClientMap) (n k : Bytes) → fix_get k (index n m).1 ≡ fix_get k m
unfolding index fix_get Peers.get
fix_get-index m n k = ground (arith, lookup-insert n k none m.map, bytes_eq_iff n k)

pub listed-index : (m : ClientMap) (n t : Bytes) → listed t (index n m).1 ≡ listed t m
unfolding index listed
listed-index m n t = ground arith

pub index-Agree : (m : ClientMap) (n : Bytes) → Agree m → Agree (index n m).1
index-Agree m n = same-Agree m (index n m).1 (listed-index m n) (fix_get-index m n)
