-- ===== src/Peers/Holes.antt =====
-- `set` of `peer_handle_map_for_client` in src/peer_handle_map.cpp, which makes up the name itself.
use bserver.Base.{
  ℕ, ◌≤◌, ◌<◌, ◌≡◌, ◌≢◌, refl, sym, ◌∙◌, true, Bool-cases, [], ◌∷◌, ◌++◌, Bytes, bytes_eq_iff,
  bytes_eq_refl, arith, ◌⊎◌, inl, inr, none, some, is_some, leb, contains, contains-append,
  append_assoc,
}
use bserver.Base.Maps.{bytes_key, lookup}
use bserver.Peers.{SessionPtr, PeerMap, find_matched}
use bserver.Peers.Client.{ClientMap, name, index, set, fix_get}
use bserver.Peers.Filled.{Filled, hole_Filled, saved, saved-Agree, fix_get-saved, index-value}
use bserver.Peers.Registry.{Agree, index-Agree, fix_get-index}

-- `set` for a new session `h` of the server `s`, where the tables agree. With `connect_count` or more
-- keys that hold the address it saves nothing and changes nothing. Otherwise, where the name with the
-- next number has no session it saves `h` under it, and the tables agree. Where that name is in use,
-- either all names with lower numbers are in use too, and it saves nothing; or it saves `h` under one
-- of them that had no session, and appends to the list of `s` the name in use in place of that one, so
-- that the tables no longer agree.
pub set_lem :
    (connect_count h : ℕ) (s : Bytes) (m : ClientMap)
    → Agree m
    → let count = find_matched s m.map in
      let taken = name s count in
      let r = set connect_count s (some h) m in
      ((connect_count ≤ count) × (r.0 ≡ []) × (r.1 ≡ m))
      ⊎ ((count < connect_count)
            × (fix_get taken m ≡ none)
            × (r.0 ≡ taken)
            × Agree r.1
            × (fix_get taken r.1 ≡ some h)
          ⊎ (count < connect_count) × (fix_get taken m ≢ none) × Filled s count h m r)
unfolding set
set_lem connect_count h s m v =
    let n = name s (find_matched s m.map) in
    let m' = (index n m).1 in
    elim (Bool-cases (leb connect_count (find_matched s m.map))) [
      | inl full ↦ rw full (inl (ground arith, refl, refl))
      | inr room ↦ elim (Bool-cases (is_some (index n m).0)) [
        | inl used ↦
            rw (room, used)
              (inr (
                inr (
                  ground arith,
                  λ p. ground (arith, index-value n m),
                  hole_Filled s (find_matched s m.map) h m (λ f. ground (arith, index-value n m)) v,
                )))
        | inr free ↦
            rw (room, free)
              (inr (
                inl (
                  ground arith,
                  ground (arith, index-value n m),
                  refl,
                  unfold saved in
                      saved-Agree m' s (find_matched s m.map) h (index-Agree m n v)
                        (fix_get-index m n n ∙ sym (index-value n m) ∙ (ground arith)),
                  (let f : fix_get n (saved s n n (some h) m') ≡ some h =
                        fix_get-saved s n n n (some h) m' ∙ rw (bytes_eq_refl n) refl in
                      unfold saved in f),
                )))
      ]
    ]

find_matched-key :
    (s k : Bytes) (p : SessionPtr) (m : PeerMap)
    → contains s k ≡ true
    → lookup k m ≡ some p
    → 1 ≤ find_matched s m
unfolding find_matched lookup
find_matched-key s k p [] c e = cc
find_matched-key s k p ((j, q) ∷ m) c e =
    ground (arith, bytes_eq_iff j k, find_matched-key s k p m c)

-- With one connection to a server allowed, a connection of any server whose address begins with the
-- address of `s` uses up the one of `s`: `set` then saves nothing for `s`.
pub set-longer_address :
    (s d : Bytes) (i : ℕ) (p q : SessionPtr) (m : ClientMap)
    → lookup (name (s ++ d) i) m.map ≡ some q
    → set 1 s p m ≡ ([], m)
unfolding set
set-longer_address s d i p q m e =
    ground (arith, find_matched-key s (name (s ++ d) i) q m.map (long_name s d i) e)
  where
    long_name : (s d : Bytes) (i : ℕ) → contains s (name (s ++ d) i) ≡ true
    long_name s d i = unfold name in rw (append_assoc s d _) (contains-append s _)
