-- ===== src/Peers/Opened.antt =====
-- `set` of `peer_handle_map_for_client` in src/peer_handle_map.cpp, from an empty registry on: the names are
-- given out in order.
use native.Mathlib.Decide.{dec_lt}
use bserver.Base.{
  bytes_eq_refl, ℕ, suc, ◌≤◌, ◌<◌, ◌≡◌, ◌≢◌, refl, ap, ◌∙◌, true, false, Bool-cases, inl, inr, [],
  ◌∷◌, Bytes, bytes_eq, bytes_eq_iff, bytes_lt, bytes_lt_total, contains, contains-append, none,
  some, leb, arith,
}
use bserver.Base.Maps.{bytes_key, lookup, insert, lookup-insert}
use bserver.Peers.{get-insert, PeerMap, SessionPtr, find_matched}
use bserver.Peers.Names.{name-injective}
use bserver.Peers
use bserver.Peers.Client
use bserver.Peers.Client.{ClientMap, no_clients, name, fix_get}

bytes_lt_asym : (a b : Bytes) → bytes_lt a b ≡ true → bytes_lt b a ≡ false
unfolding bytes_lt
bytes_lt_asym [] [] e = ground arith
bytes_lt_asym [] (y ∷ b) e = ground arith
bytes_lt_asym (x ∷ a) [] e = ground arith
bytes_lt_asym (x ∷ a) (y ∷ b) e = ground (arith, bytes_lt_asym a b)

bytes_lt_irrefl : (a : Bytes) → bytes_lt a a ≡ false
bytes_lt_irrefl a = ground (arith, bytes_lt_asym a a)

insert_again :
    (k : Bytes) (p q : SessionPtr) (m : PeerMap) → insert k p (insert k q m) ≡ insert k p m
unfolding insert
insert_again k p q [] = rw (bytes_lt_irrefl k) refl
insert_again k p q ((j, w) ∷ m) = elim (Bool-cases (bytes_lt k j)) [
  | inl below ↦ rw (below, bytes_lt_irrefl k) refl
  | inr other ↦ elim (Bool-cases (bytes_lt j k)) [
    | inl above ↦
        rw (other, above)
          (rw (bytes_lt_asym j k above, above) (ap (λ r. (j, w) ∷ r) (insert_again k p q m)))
    | inr same ↦ rw (other, same) (rw (bytes_lt_irrefl k) refl)
  ]
]

find_matched-insert :
    (s k : Bytes) (p : SessionPtr) (m : PeerMap)
    → lookup k m ≡ none
    → contains s k ≡ true
    → find_matched s (insert k p m) ≡ suc (find_matched s m)
unfolding find_matched insert lookup
find_matched-insert s k p [] e c = ground arith
find_matched-insert s k p ((j, w) ∷ m) e c =
    ground (arith, bytes_lt_total k j, bytes_eq_iff j k, find_matched-insert s k p m)

contains-name : (s : Bytes) (i : ℕ) → contains s (name s i) ≡ true
unfolding name
contains-name s i = contains-append s _

-- A server with `c` connections under its first names, and no key under the later ones.
pub record Opened (s : Bytes) (c : ℕ) (m : ClientMap) : Type 0 where
  pub matched : find_matched s m.map ≡ c
  pub free : (j : ℕ) → c ≤ j → lookup (name s j) m.map ≡ none
  pub held : (j : ℕ) → j < c → (h : ℕ) × (fix_get (name s j) m ≡ some h)

other : (i j : ℕ) (s : Bytes) → i ≢ j → bytes_eq (name s i) (name s j) ≡ false
other i j s apart = elim (Bool-cases (bytes_eq (name s i) (name s j))) [
  | inl same ↦
      absurd (apart (name-injective s s i j ((bytes_eq_iff (name s i) (name s j)).0 same)).1)
  | inr different ↦ different
]

pub empty-Opened : (s : Bytes) → Opened s 0 no_clients
unfolding find_matched lookup
empty-Opened s = record {
  matched = refl;
  free = λ j _. refl;
  held = λ j less. absurd (omega arith);
}

-- A connection that is saved under the next name.
pub entered-Opened :
    (s : Bytes) (c h : ℕ) (m n : ClientMap)
    → n.map ≡ insert (name s c) (some h) m.map
    → Opened s c m
    → Opened s (suc c) n
unfolding fix_get
entered-Opened s c h m n e o = record {
  matched =
      ap (find_matched s) e
      ∙ find_matched-insert s (name s c) (some h) m.map (o.free c (omega arith)) (contains-name s c)
      ∙ ap suc o.matched;
  free = λ j above.
      ap (lookup (name s j)) e
      ∙ lookup-insert (name s c) (name s j) (some h) m.map
      ∙ rw (other c j s (omega arith)) (o.free j (omega arith));
  held = λ j less. elim (dec_lt j c) [
    | yes below ↦
        let (g, found) = o.held j below in
        (
          g,
          ap (Peers.get (name s j)) e
              ∙ get-insert (name s c) (name s j) (some h) m.map
              ∙ rw (other c j s (omega arith)) found,
        )
    | no last ↦
        let same : j ≡ c = omega arith in
        (
          h,
          ap (Peers.get (name s j)) e
              ∙ get-insert (name s c) (name s j) (some h) m.map
              ∙ rw (same, bytes_eq_refl (name s c)) refl,
        )
  ];
}

pub set-enters :
    (s : Bytes) (count c h : ℕ) (m : ClientMap)
    → Opened s c m
    → c < count
    → ((Client.set count s (some h) m).0 ≡ name s c)
      × ((Client.set count s (some h) m).1.map ≡ insert (name s c) (some h) m.map)
unfolding Client.set Client.index Client.enter Client.relist
set-enters s count c h m o less =
    let room : leb count c ≡ false = ground arith in
    rw (Client.set, o.matched, room, Client.index, o.free c (omega arith))
      (
        refl,
        ap (λ k. insert (name s c) (some h) (insert (name s k) none m.map)) o.matched
            ∙ insert_again (name s c) (some h) none m.map,
      )
