-- ===== src/Peering/Loops.antt =====
-- The two nested loops that src/heart_task_thread.cpp and src/configwrap.cpp run over the servers.
use native.Mathlib.Decide.{dec_lt}
use bserver.Base.{
  ℕ, zero, suc, ◌+◌, ◌≤◌, ◌<◌, ◌≡◌, sym, Bytes, Bool-cases, some, inl, inr, [], ◌∷◌, arith, ◌==◌,
}
use bserver.Base.Maps.{lookup}
use bserver.Peers.Client.{fix_get, name}
use bserver.Config.{ServerMap, nat_key}
use bserver.Peering.{Net}

-- The loop over the connections of a server: `rounds` are left, from `i` on.
unfoldable pub for_names : (ℕ → Net → Net) → (rounds i : ℕ) → Net → Net
for_names step zero i net = net
for_names step (suc rounds) i net = for_names step rounds (suc i) (step i net)

-- The loop over the map, with `connect_count` connections to each server.
unfoldable pub for_servers : (Bytes → ℕ → Net → Net) → (connect_count : ℕ) → ServerMap → Net → Net
unfolding for_names
for_servers step connect_count [] net = net
for_servers step connect_count ((k, id) ∷ servers) net =
    for_servers step connect_count servers (for_names (step id) connect_count 0 net)

-- A step that leaves registered sessions where they are.
abbrev pub Keeps : (ℕ → Net → Net) → Type 0
Keeps step =
    (j : Bytes) (i h : ℕ) (net : Net)
    → fix_get j net.clients ≡ some h
    → fix_get j (step i net).clients ≡ some h

-- A step that leaves a session under the name that it is for.
abbrev pub Connects : Bytes → (ℕ → Net → Net) → Type 0
Connects id step =
    (i : ℕ) (net : Net) → (h : ℕ) × (fix_get (name id i) (step i net).clients ≡ some h)

pub for_names-Keeps :
    (step : ℕ → Net → Net) (rounds n : ℕ) → Keeps step → Keeps (λ i. for_names step rounds n)
unfolding for_names
for_names-Keeps step zero n keeps j i h net e = e
for_names-Keeps step (suc rounds) n keeps j i h net e =
    for_names-Keeps step rounds (suc n) keeps j i h (step n net) (keeps j n h net e)

for_names-Connects :
    (id : Bytes) (step : ℕ → Net → Net) (rounds i n : ℕ) (net : Net)
    → Keeps step
    → Connects id step
    → i ≤ n
    → n < i + rounds
    → (h : ℕ) × (fix_get (name id n) (for_names step rounds i net).clients ≡ some h)
unfolding for_names
for_names-Connects id step zero i n net keeps connects low high = absurd (omega arith)
for_names-Connects id step (suc rounds) i n net keeps connects low high = elim (dec_lt i n) [
  | yes below ↦
      for_names-Connects id step rounds (suc i) n (step i net) keeps connects (omega arith)
        (omega arith)
  | no last ↦
      let e : i ≡ n = omega arith in
      let (h, held) = connects i net in
      (h, for_names-Keeps step rounds (suc i) keeps (name id n) i h (step i net) (rw (sym e) held))
]

module _ (step : Bytes → ℕ → Net → Net) (keeps : (id : Bytes) → Keeps (step id)) where
  pub for_servers-keeps :
      (connect_count : ℕ) (servers : ServerMap) (net : Net) (j : Bytes) (h : ℕ)
      → fix_get j net.clients ≡ some h
      → fix_get j (for_servers step connect_count servers net).clients ≡ some h
  unfolding for_servers
  for_servers-keeps count [] net j h e = e
  for_servers-keeps count ((k, id) ∷ servers) net j h e =
      for_servers-keeps count servers _ j h
        (for_names-Keeps (step id) count 0 (keeps id) j 0 h net e)

  pub for_servers-Connects :
      (connect_count : ℕ) (servers : ServerMap) (net : Net) (k i : ℕ) (id : Bytes)
      → Connects id (step id)
      → lookup k servers ≡ some id
      → i < connect_count
      → (h : ℕ) × (fix_get (name id i) (for_servers step connect_count servers net).clients
          ≡ some h)
  unfolding for_servers lookup
  for_servers-Connects count [] net k i id connects found less = absurd (cc)
  for_servers-Connects count ((j, other) ∷ servers) net k i id connects found less =
      elim (Bool-cases (j == k)) [
        | inl same ↦
            let e : other ≡ id = ground arith in
            let (h, held) =
              for_names-Connects id (step id) count 0 i net (keeps id) connects (omega arith)
                (omega arith) in
            (h, for_servers-keeps count servers _ (name id i) h (rw e held))
        | inr apart ↦ for_servers-Connects count servers _ k i id connects (ground arith) less
      ]
