-- ===== src/Peers/Pick.antt =====
-- What `get` of `peer_handle_map_for_client` in src/peer_handle_map.cpp finds after any history of
-- connections.
use bserver.Base.{
  ℕ, zero, suc, ◌≤◌, ◌<◌, ◌≡◌, refl, sym, ◌∙◌, List, [], ◌∷◌, Bytes, bytes_eq_refl, All, arith, ◌⊎◌,
  inl, inr, Option, none, some, get_elem?, length, Option-cases, is_some, leb, ap,
}
use bserver.Peers.{SessionPtr, find_matched}
use bserver.Peers.Holes.{set_lem}
use bserver.Peers.Client.{
  ClientMap, no_clients, name, listed, fix_set, fix_get, get, random_num, remove, set,
}
use bserver.Peers.Registry.{
  Agree, Agree-no_clients, fix_set-Agree, remove-Agree, get-Agree, occurs, alive, IsName,
}

-- What may happen to the registry: a session connects under the name of a server and a number, or under
-- the name that `set` makes up, where that one has no session; a session closes; a sender picks one.
pub data Step (m : ClientMap) : ClientMap → Type 0 where
  connects : (s : Bytes) (i h : ℕ) → Step m (fix_set s (name s i) (some h) m).1
  enters :
      (connect_count : ℕ) (s : Bytes) (h : ℕ)
      → fix_get (name s (find_matched s m.map)) m ≡ none
      → Step m (set connect_count s (some h) m).1
  drops : (s : Bytes) (i : ℕ) → Step m (remove s (name s i) m)
  picks : (r : ℕ) (s : Bytes) → Step m (get r s m).1

pub data Reach (m : ClientMap) : ClientMap → Type 0 where
  here : Reach m m
  next : {a b : ClientMap} → Reach m a → Step a b → Reach m b

Step-Agree : {a b : ClientMap} → Step a b → Agree a → Agree b
Step-Agree {a} (connects s i h) v = fix_set-Agree a s i v h
Step-Agree {a} (enters connect_count s h free) v = elim (set_lem connect_count h s a v) [
  | inl (full, e, same) ↦ rw same v
  | inr (inl (room, f, e, w, g)) ↦ w
  | inr (inr (room, used, r)) ↦ absurd (used free)
]
Step-Agree {a} (drops s i) v = remove-Agree a s i v
Step-Agree {a} (picks r s) v = get-Agree a r s v

pub Reach-Agree : {m : ClientMap} → Reach no_clients m → Agree m
Reach-Agree here = Agree-no_clients
Reach-Agree (next r st) = Step-Agree st (Reach-Agree r)

-- An element within the bounds of a list.
elem_at :
    (P : Bytes → Type 0) (l : List Bytes) (i : ℕ)
    → i < length l
    → All P l
    → (n : Bytes) × (get_elem? l i ≡ some n) × (1 ≤ occurs n l) × P n
unfolding occurs
elem_at P [] i h p = absurd (omega arith)
elem_at P (x ∷ l) zero h p = (x, refl, ground (arith, bytes_eq_refl x), p.0)
elem_at P (x ∷ l) (suc i) h p =
    let (n, e, o, q) = elem_at P l i (omega arith) p.1 in (n, e, omega arith, q)

random_num-lt : (r n : ℕ) → 1 ≤ n → random_num r n < n
unfolding random_num
random_num-lt r n h = grind arith

-- What `get` gives for the server `s`.
abbrev pub Finds : Bytes → ClientMap → SessionPtr → Type 0
Finds s m p =
    (((i : ℕ) → fix_get (name s i) m ≡ none) × (p ≡ none))
    ⊎ ((i : ℕ) × (h : ℕ) × (p ≡ some h) × (fix_get (name s i) m ≡ some h))

none_of_alive : (k : Bytes) (m : ClientMap) → alive k m ≡ 0 → fix_get k m ≡ none
none_of_alive k m e = ground arith

some_of_alive : (k : Bytes) (m : ClientMap) → 1 ≤ alive k m → (h : ℕ) × (fix_get k m ≡ some h)
some_of_alive k m e = elim (Option-cases (fix_get k m)) [
  | inl f ↦ absurd (ground arith)
  | inr (h, f) ↦ (h, f)
]

abbrev picked : Option Bytes → ClientMap → SessionPtr
picked none m = none
picked (some n) m = fix_get n m

get-picked :
    (m : ClientMap) (r : ℕ) (s : Bytes)
    → (get r s m).0 ≡ picked (get_elem? (listed s m) (random_num r (length (listed s m)))) m
unfolding get fix_get
get-picked m r s = ground arith

-- In agreeing tables `get` finds a live session of the server if there is one.
pub Agree-Finds :
    (m : ClientMap) (r : ℕ) (s : Bytes) (l : List Bytes)
    → listed s m ≡ l
    → Agree m
    → Finds s m (get r s m).0
Agree-Finds m r s [] e v = inl (
  λ i. none_of_alive (name s i) m (sym (v.once s i) ∙ rw e (unfold occurs in refl)),
  get-picked m r s ∙ rw e refl,
)
Agree-Finds m r s (x ∷ l) e v =
    let (n, at, o, (i, q)) =
      elem_at (IsName s) (x ∷ l) (random_num r (length (x ∷ l)))
        (random_num-lt r (length (x ∷ l)) (omega arith)) (rw e at (v.names s)) in
    let (h, f) = some_of_alive (name s i) m (ground (arith, v.once s i)) in
    inr (i, h, get-picked m r s ∙ cc (e, at, q, f), f)

listed-name :
    (m : ClientMap) (s x : Bytes) (l : List Bytes)
    → listed s m ≡ x ∷ l
    → Agree m
    → ¬ ((i : ℕ) → fix_get (name s i) m ≡ none)
unfolding occurs
listed-name m s x l e v missing =
    let (i, q) = (rw e at (v.names s)).0 in
    absurd (ground (arith, v.once s i, e, q, missing i, bytes_eq_refl (name s i)))

-- `get` finds a session exactly if a name is listed.
pub get-listed :
    (m : ClientMap) (r : ℕ) (s : Bytes) (l : List Bytes)
    → listed s m ≡ l
    → Agree m
    → is_some (get r s m).0 ≡ leb 1 (length l)
get-listed m r s [] e v =
    let q : (get r s m).0 ≡ none = get-picked m r s ∙ rw e refl in ap is_some q
get-listed m r s (x ∷ l) e v = elim (Agree-Finds m r s (listed s m) refl v) [
  | inl (missing, q) ↦ absurd (listed-name m s x l e v missing)
  | inr (i, h, q, f) ↦ ap is_some q ∙ ground arith
]

-- Whatever sessions connected under fixed names, or through `set` while the name that it made up had no
-- session, whatever sessions were replaced, dropped and picked, and whatever number `rand()` returns:
-- `get` returns a live session of the server if there is one, and a null pointer only if there is none.
pub get-Finds : (m : ClientMap) (r : ℕ) (s : Bytes) → Reach no_clients m → Finds s m (get r s m).0
get-Finds m r s h = Agree-Finds m r s (listed s m) refl (Reach-Agree h)
