-- ===== src/Peering/Posts.antt =====
-- What a round of src/heart_task_thread.cpp sends.
use mathlib.Core.List.{Mem, mem-cons_self, mem-append_left, mem-append_right}
use native.Mathlib.Decide.{dec_lt}
use bserver.Base.{
  ℕ, zero, suc, ◌+◌, ◌≤◌, ◌<◌, ◌≡◌, sym, List, [], ◌∷◌, ◌++◌, Bytes, some, inl, inr, Bool-cases,
  Option-cases, arith, ◌==◌,
}
use bserver.Base.Maps.{lookup}
use bserver.Message.{MessageFormat, Status, done, failed}
use bserver.Peers.Client.{fix_get, name}
use bserver.Config.{ServerMap, nat_key}
use bserver.Peering.{Outside, Net, post_write, registe, connect_to}
use bserver.Peering.Heart.{keepalive, connect_parts, beat, heart_round}
use bserver.Peering.Held.{beat_of_missing, beat_keeps}
use bserver.Peering.Loops.{for_names, for_servers, for_names-Keeps}

registe_posts :
    (out : Outside) (res : Status) (h : ℕ) (net : Net) (p : ℕ × MessageFormat)
    → Mem p net.posted
    → Mem p (registe out res h net).posted
unfolding registe post_write
registe_posts out failed h net p e = e
registe_posts out done h net p e = mem-append_left _ e

connect_to_posts :
    (out : Outside) (sid k : Bytes) (net : Net) (p : ℕ × MessageFormat)
    → Mem p net.posted
    → Mem p (connect_to out sid k net).posted
unfolding connect_to
connect_to_posts out sid k net p e = registe_posts out _ net.next_session _ p e

connect_parts_posts :
    (out : Outside) (parts : List Bytes) (k : Bytes) (net : Net) (p : ℕ × MessageFormat)
    → Mem p net.posted
    → Mem p (connect_parts out parts k net).posted
unfolding connect_parts
connect_parts_posts out [] k net p e = e
connect_parts_posts out (a ∷ []) k net p e = e
connect_parts_posts out (a ∷ b ∷ []) k net p e = e
connect_parts_posts out (a ∷ b ∷ c ∷ []) k net p e = connect_to_posts out _ k net p e
connect_parts_posts out (a ∷ b ∷ c ∷ d ∷ r) k net p e = e

posted_by-beat :
    (out : Outside) (id : Bytes) (i h : ℕ) (net : Net)
    → fix_get (name id i) net.clients ≡ some h
    → (beat out id i net).posted ≡ net.posted ++ ((h, keepalive out) ∷ [])
unfolding beat post_write
posted_by-beat out id i h net e = ground arith

beat_posts :
    (out : Outside) (id : Bytes) (i : ℕ) (net : Net) (p : ℕ × MessageFormat)
    → Mem p net.posted
    → Mem p (beat out id i net).posted
beat_posts out id i net p e = elim (Option-cases (fix_get (name id i) net.clients)) [
  | inl missing ↦
      rw (beat_of_missing out id i net missing)
        (connect_parts_posts out (out.split id) (name id i) net p e)
  | inr (h, held) ↦ rw (posted_by-beat out id i h net held) (mem-append_left _ e)
]

beat_sends :
    (out : Outside) (id : Bytes) (i h : ℕ) (net : Net)
    → fix_get (name id i) net.clients ≡ some h
    → Mem (h, keepalive out) (beat out id i net).posted
beat_sends out id i h net e =
    rw (posted_by-beat out id i h net e) (mem-append_right net.posted mem-cons_self)

beats_posts :
    (out : Outside) (id : Bytes) (rounds i : ℕ) (net : Net) (p : ℕ × MessageFormat)
    → Mem p net.posted
    → Mem p (for_names (beat out id) rounds i net).posted
unfolding for_names
beats_posts out id zero i net p e = e
beats_posts out id (suc rounds) i net p e =
    beats_posts out id rounds (suc i) (beat out id i net) p (beat_posts out id i net p e)

beats_send :
    (out : Outside) (id : Bytes) (rounds i n h : ℕ) (net : Net)
    → i ≤ n
    → n < i + rounds
    → fix_get (name id n) net.clients ≡ some h
    → Mem (h, keepalive out) (for_names (beat out id) rounds i net).posted
unfolding for_names
beats_send out id zero i n h net low high e = absurd (omega arith)
beats_send out id (suc rounds) i n h net low high e = elim (dec_lt i n) [
  | yes below ↦
      beats_send out id rounds (suc i) n h (beat out id i net) (omega arith) (omega arith)
        (beat_keeps out id (name id n) i h net e)
  | no last ↦
      let same : n ≡ i = omega arith in
      beats_posts out id rounds (suc i) (beat out id i net) _
        (beat_sends out id i h net (rw same at e))
]

heart_round_posts :
    (out : Outside) (count : ℕ) (servers : ServerMap) (net : Net) (p : ℕ × MessageFormat)
    → Mem p net.posted
    → Mem p (for_servers (beat out) count servers net).posted
unfolding for_servers
heart_round_posts out count [] net p e = e
heart_round_posts out count ((k, id) ∷ servers) net p e =
    heart_round_posts out count servers _ p (beats_posts out id count 0 net p e)

pub heart_round_sends :
    (out : Outside) (connect_count : ℕ) (servers : ServerMap) (net : Net) (k i h : ℕ) (id : Bytes)
    → lookup k servers ≡ some id
    → i < connect_count
    → fix_get (name id i) net.clients ≡ some h
    → Mem (h, keepalive out) (heart_round out connect_count servers net).posted
unfolding heart_round for_servers lookup
heart_round_sends out count [] net k i h id found less e = absurd (cc)
heart_round_sends out count ((j, other) ∷ servers) net k i h id found less e =
    elim (Bool-cases (j == k)) [
      | inl same ↦
          let o : other ≡ id = ground arith in
          heart_round_posts out count servers _ _
            (beats_send out other count 0 i h net (omega arith) (omega arith) (rw (sym o) at e))
      | inr apart ↦
          heart_round_sends out count servers _ k i h id (ground arith) less
            (for_names-Keeps (beat out other) count 0 (beat_keeps out other) (name id i) 0 h net e)
    ]
