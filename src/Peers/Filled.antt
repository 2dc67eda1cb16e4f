-- ===== src/Peers/Filled.antt =====
-- The loop of `set` in src/peer_handle_map.cpp that looks for a free name.
use native.Mathlib.Decide.{dec_lt}
use bserver.Base.{
  ℕ, zero, suc, ◌+◌, ◌≤◌, ◌<◌, List, ap, ◌≡◌, ◌≢◌, refl, sym, ◌∙◌, Bool-cases, [], ◌∷◌, ◌++◌, Bytes,
  bytes_eq, bytes_eq_iff, bytes_eq_refl, arith, if◌then◌else◌, ◌⊎◌, inl, inr, none, some, is_some,
}
use bserver.Base.Maps.{bytes_key}
use bserver.Peers.{SessionPtr, PeerMap, get-insert, find_matched}
use bserver.Peers
use bserver.Peers.Client.{ClientMap, name, listed, relist, enter, index, fill_hole, fix_get}
use bserver.Peers.Registry.{
  Agree, index-Agree, alive, IsName, occurs-snoc, change-Agree, All-snoc, listed-relist,
  fix_get-index, listed-index, listed-enter,
}

-- The state after a session was saved under `n` and `taken` was put on the list of `s`.
unfoldable pub saved : Bytes → Bytes → Bytes → SessionPtr → ClientMap → ClientMap
saved s n taken p m = relist s (listed s (enter n p m) ++ (taken ∷ [])) (enter n p m)

listed-saved :
    (s t n taken : Bytes) (p : SessionPtr) (m : ClientMap)
    → listed t (saved s n taken p m)
      ≡ (if bytes_eq s t then listed s m ++ (taken ∷ []) else listed t m)
unfolding saved
listed-saved s t n taken p m = ground (
  arith,
  listed-relist s t (listed s (enter n p m) ++ (taken ∷ [])) (enter n p m),
  listed-enter s n p m,
  listed-enter t n p m,
)

pub fix_get-saved :
    (s n taken k : Bytes) (p : SessionPtr) (m : ClientMap)
    → fix_get k (saved s n taken p m) ≡ (if bytes_eq n k then p else fix_get k m)
unfolding saved relist enter fix_get
fix_get-saved s n taken k p m = get-insert n k p m.map

-- A name that had no session, saved and listed as itself.
pub saved-Agree :
    (m : ClientMap) (s : Bytes) (i h : ℕ)
    → Agree m
    → fix_get (name s i) m ≡ none
    → Agree (saved s (name s i) (name s i) (some h) m)
saved-Agree m s i h v e =
    change-Agree m _ s i (listed s m ++ (name s i ∷ [])) (some h) v
      (λ t. listed-saved s t (name s i) (name s i) (some h) m)
      (λ k. fix_get-saved s (name s i) (name s i) k (some h) m)
      (λ k.
        ground
          (arith, occurs-snoc k (name s i) (listed s m), bytes_eq_iff (name s i) k, v.once s i))
      (All-snoc (IsName s) (listed s m) (name s i) (v.names s) (i, refl))

-- A name in use that goes on its list a second time.
saved-doubled :
    (m : ClientMap) (s n : Bytes) (c : ℕ) (p : SessionPtr)
    → Agree m
    → alive (name s c) m ≡ 1
    → ¬ Agree (saved s n (name s c) p m)
saved-doubled m s n c p v e w = absurd (
    ground (
      arith,
      w.once s c,
      v.once s c,
      listed-saved s s n (name s c) p m,
      bytes_eq_refl s,
      bytes_eq_refl (name s c),
      occurs-snoc (name s c) (name s c) (listed s m),
    ))

pub index-value : (n : Bytes) (m : ClientMap) → (index n m).0 ≡ fix_get n m
unfolding index fix_get Peers.get
index-value n m = ground arith

-- What is left when a free name from number `i` on and below `c` is looked for although `c` is in use:
-- there is none and nothing is saved, or the session is saved under one and `c` is listed once more.
abbrev FilledFrom : ℕ → Bytes → (c h : ℕ) → ClientMap → Bytes × ClientMap → Type 0
FilledFrom i s c h m (n, m1) =
    ((n ≡ [])
      × ((j : ℕ) → i ≤ j → j < c → fix_get (name s j) m ≢ none)
      × ((k : Bytes) → fix_get k m1 ≡ fix_get k m)
      × Agree m1)
    ⊎ ((j : ℕ) × (j < c)
        × (n ≡ name s j)
        × (fix_get n m ≡ none)
        × (fix_get n m1 ≡ some h)
        × (listed s m1 ≡ listed s m ++ (name s c ∷ []))
        × (¬ Agree m1))

-- The same from the first number on.
abbrev pub Filled : Bytes → (c h : ℕ) → ClientMap → Bytes × ClientMap → Type 0
Filled s c h m (n, m1) =
    ((n ≡ [])
      × ((j : ℕ) → j < c → fix_get (name s j) m ≢ none)
      × ((k : Bytes) → fix_get k m1 ≡ fix_get k m)
      × Agree m1)
    ⊎ ((j : ℕ) × (j < c)
        × (n ≡ name s j)
        × (fix_get n m ≡ none)
        × (fix_get n m1 ≡ some h)
        × (listed s m1 ≡ listed s m ++ (name s c ∷ []))
        × (¬ Agree m1))

-- A look at a name in use changes neither table.
FilledFrom-index :
    (i : ℕ) (s : Bytes) (c h : ℕ) (m : ClientMap) (r : Bytes × ClientMap)
    → fix_get (name s i) m ≢ none
    → FilledFrom (suc i) s c h (index (name s i) m).1 r
    → FilledFrom i s c h m r
FilledFrom-index i s c h m (n, m1) used (inl (e, full, same, v)) = inl (
  e,
  λ j low high. elim (dec_lt i j) [
    | yes above ↦ λ f. full j above high (fix_get-index m (name s i) (name s j) ∙ f)
    | no below ↦ let here : i ≡ j = omega arith in rw (← here) used
  ],
  λ k. same k ∙ fix_get-index m (name s i) k,
  v,
)
FilledFrom-index i s c h m (n, m1) used (inr (j, low, e, f, g, l, w)) = inr (
  j,
  low,
  e,
  sym (fix_get-index m (name s i) n) ∙ f,
  g,
  l ∙ ap (λ (t : List Bytes). t ++ (name s c ∷ [])) (listed-index m (name s i) s),
  w,
)

saved-FilledFrom :
    (i : ℕ) (s : Bytes) (c h : ℕ) (m : ClientMap)
    → i < c
    → fix_get (name s i) m ≡ none
    → Agree (index (name s i) m).1
    → alive (name s c) (index (name s i) m).1 ≡ 1
    → FilledFrom i s c h m (name s i, saved s (name s i) (name s c) (some h) (index (name s i) m).1)
saved-FilledFrom i s c h m low free v e =
    let n = name s i in
    let m' = (index n m).1 in
    inr (
      i,
      low,
      refl,
      free,
      fix_get-saved s n (name s c) n (some h) m' ∙ rw (bytes_eq_refl n) refl,
      listed-saved s s n (name s c) (some h) m'
          ∙ rw (bytes_eq_refl s)
              (ap (λ (t : List Bytes). t ++ (name s c ∷ [])) (listed-index m n s)),
      saved-doubled m' s n c (some h) v e,
    )

fill_hole-FilledFrom :
    (rounds i : ℕ) (s : Bytes) (c h : ℕ) (m : ClientMap)
    → i + rounds ≡ c
    → Agree m
    → alive (name s c) m ≡ 1
    → FilledFrom i s c h m (fill_hole rounds i s (name s c) (some h) m)
unfolding fill_hole
fill_hole-FilledFrom zero i s c h m t v e =
    inl (refl, λ j low high. absurd (omega arith), λ k. refl, v)
fill_hole-FilledFrom (suc rounds) i s c h m t v e =
    let m' = (index (name s i) m).1 in
    let v' = index-Agree m (name s i) v in
    let e' : alive (name s c) m' ≡ 1 = ground (arith, fix_get-index m (name s i) (name s c)) in
    elim (Bool-cases (is_some (index (name s i) m).0)) [
      | inl used ↦ rw used (
          FilledFrom-index i s c h m _ (λ f. ground (arith, index-value (name s i) m))
            (fill_hole-FilledFrom rounds (suc i) s c h m' (omega arith) v' e'))
      | inr free ↦ rw free (
          unfold saved in
          saved-FilledFrom i s c h m (omega arith) (ground (arith, index-value (name s i) m)) v' e')
    ]

pub hole_Filled :
    (s : Bytes) (c h : ℕ) (m : ClientMap)
    → fix_get (name s c) m ≢ none
    → Agree m
    → Filled s c h m (fill_hole c 0 s (name s c) (some h) (index (name s c) m).1)
hole_Filled s c h m used v =
    let m' = (index (name s c) m).1 in
    let keep = fix_get-index m (name s c) in
    elim (fill_hole-FilledFrom c 0 s c h m' (omega arith) (index-Agree m (name s c) v)
      (ground (arith, keep (name s c)))) [
        | inl (e, full, same, w) ↦ inl (
          e,
          λ j high f. full j (omega arith) high (keep (name s j) ∙ f),
          λ k. same k ∙ keep k,
          w,
        )
        | inr (j, low, e, f, g, l, w) ↦ inr (
          j,
          low,
          e,
          sym (keep _) ∙ f,
          g,
          l ∙ ap (λ (t : List Bytes). t ++ (name s c ∷ [])) (listed-index m (name s c) s),
          w,
        )
      ]
