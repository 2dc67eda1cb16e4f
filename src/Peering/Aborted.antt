-- ===== src/Peering/Aborted.antt =====
-- A turn of `work` in src/heart_task_thread.cpp where the resolver can throw: the handler of exceptions
-- stands outside the loops, so the turn ends there.
use bserver.Base.{
  ℕ, zero, suc, ◌≡◌, refl, sym, ap, ◌∙◌, Bool, true, false, Option-cases, inl, inr, List, [], ◌∷◌,
  ◌++◌, Bytes, none, some, if◌then◌else◌,
}
use bserver.Peers.Client
use bserver.Pool.{get_io_service}
use bserver.Config.{ServerMap}
use bserver.Peering.Heart.{connect_parts, keepalive, beat, heart_round}
use bserver.Peering.Loops.{for_names, for_servers}
use bserver.Peering.{Outside, Net, post_write}

-- `resolver.resolve`, of boost: whether it finds an address, and throws if not.
abbrev pub Resolver : Type 0
Resolver = (host port : Bytes) → Bool

-- What a piece of the turn leaves, and whether it threw.
abbrev pub Attempt : Type 0
Attempt = Net × Bool

-- The branch for a name without a session, given the parts of the name of the server.
unfoldable pub resolve_parts : Outside → Resolver → List Bytes → Bytes → Net → Attempt
unfolding connect_parts
resolve_parts out resolves (a ∷ b ∷ c ∷ []) fix_id net =
    if resolves b c
    then (connect_parts out (a ∷ b ∷ c ∷ []) fix_id net, false)
    else (record net { pool = (get_io_service net.pool).1 }, true)
resolve_parts out resolves parts fix_id net = (connect_parts out parts fix_id net, false)

unfoldable pub try_beat : Outside → Resolver → Bytes → ℕ → Net → Attempt
unfolding resolve_parts
try_beat out resolves id i net = elim (Client.fix_get (Client.name id i) net.clients) [
  | some h ↦ (post_write h (keepalive out) net, false)
  | none ↦ resolve_parts out resolves (out.split id) (Client.name id i) net
]

abbrev pub go_on : Attempt → (Net → Attempt) → Attempt
go_on (net, threw) f = let rest = f net in if threw then (net, true) else rest

go_on_start : (net : Net) (f : Net → Attempt) → go_on (net, false) f ≡ f net
go_on_start net f = refl

go_on_same :
    {f g : Net → Attempt} (r : Attempt) → ((net : Net) → f net ≡ g net) → go_on r f ≡ go_on r g
go_on_same (net, true) h = refl
go_on_same (net, false) h = h net

go_on_assoc :
    (r : Attempt) (f g : Net → Attempt) → go_on r (λ net. go_on (f net) g) ≡ go_on (go_on r f) g
go_on_assoc (net, true) f g = refl
go_on_assoc (net, false) f g = refl

-- The loop over the connections of a server.
unfoldable pub try_names : (ℕ → Net → Attempt) → (rounds i : ℕ) → Net → Attempt
try_names step zero i net = (net, false)
try_names step (suc rounds) i net = go_on (step i net) (try_names step rounds (suc i))

unfoldable pub try_servers :
    (Bytes → ℕ → Net → Attempt) → (connect_count : ℕ) → ServerMap → Net → Attempt
unfolding try_names
try_servers step connect_count [] net = (net, false)
try_servers step connect_count ((k, id) ∷ servers) net =
    go_on (try_names (step id) connect_count 0 net) (try_servers step connect_count servers)

-- A turn of the loop of `work`.
unfoldable pub heart_turn : Outside → Resolver → (connect_count : ℕ) → ServerMap → Net → Net
unfolding try_beat try_servers
heart_turn out resolves connect_count servers net =
    (try_servers (try_beat out resolves) connect_count servers net).0

module _ (out : Outside) (resolves : Resolver) where
  -- Where every name resolves, nothing throws.
  module _ (all_resolve : (host port : Bytes) → resolves host port ≡ true) where
    resolve_parts-quiet :
        (parts : List Bytes) (fix_id : Bytes) (net : Net)
        → resolve_parts out resolves parts fix_id net ≡ (connect_parts out parts fix_id net, false)
    unfolding resolve_parts
    resolve_parts-quiet [] fix_id net = refl
    resolve_parts-quiet (a ∷ []) fix_id net = refl
    resolve_parts-quiet (a ∷ b ∷ []) fix_id net = refl
    resolve_parts-quiet (a ∷ b ∷ c ∷ []) fix_id net = rw (all_resolve b c) refl
    resolve_parts-quiet (a ∷ b ∷ c ∷ d ∷ r) fix_id net = refl

    try_beat-beat :
        (id : Bytes) (i : ℕ) (net : Net)
        → try_beat out resolves id i net ≡ (beat out id i net, false)
    unfolding try_beat beat
    try_beat-beat id i net = elim (Option-cases (Client.fix_get (Client.name id i) net.clients)) [
      | inl e ↦ rw (try_beat, beat, e) (resolve_parts-quiet (out.split id) (Client.name id i) net)
      | inr (h, e) ↦ rw (try_beat, beat, e) refl
    ]

    try_names-for_names :
        (id : Bytes) (rounds i : ℕ) (net : Net)
        → try_names (try_beat out resolves id) rounds i net
          ≡ (for_names (beat out id) rounds i net, false)
    unfolding try_names for_names
    try_names-for_names id zero i net = refl
    try_names-for_names id (suc rounds) i net =
        rw (try_beat-beat id i net) (try_names-for_names id rounds (suc i) (beat out id i net))

    try_servers-for_servers :
        (count : ℕ) (servers : ServerMap) (net : Net)
        → try_servers (try_beat out resolves) count servers net
          ≡ (for_servers (beat out) count servers net, false)
    unfolding try_servers for_servers
    try_servers-for_servers count [] net = refl
    try_servers-for_servers count ((k, id) ∷ servers) net =
        rw (try_names-for_names id count 0 net) (try_servers-for_servers count servers _)

    -- Where the resolver finds an address for every name, a turn of the heartbeat is a round over all
    -- servers.
    pub heart_turn-heart_round :
        (count : ℕ) (servers : ServerMap) (net : Net)
        → heart_turn out resolves count servers net ≡ heart_round out count servers net
    unfolding heart_turn heart_round
    heart_turn-heart_round count servers net =
        ap (λ r. r.0) (try_servers-for_servers count servers net)

  try_servers-append :
      (count : ℕ) (before after : ServerMap) (net : Net)
      → try_servers (try_beat out resolves) count (before ++ after) net
        ≡ go_on
            (try_servers (try_beat out resolves) count before net)
            (try_servers (try_beat out resolves) count after)
  unfolding try_servers
  try_servers-append count [] after net =
      sym (go_on_start net (try_servers (try_beat out resolves) count after))
  try_servers-append count ((k, id) ∷ before) after net =
      let first = try_names (try_beat out resolves id) count 0 net in
      let loop = try_servers (try_beat out resolves) count in
      go_on_same first (try_servers-append count before after)
      ∙ go_on_assoc first (loop before) (loop after)

  module _ (a b c id : Bytes) (parts : out.split id ≡ a ∷ b ∷ c ∷ [])
      (unknown : resolves b c ≡ false) where
    try_beat-throws :
        (net : Net)
        → Client.fix_get (Client.name id 0) net.clients ≡ none
        → (try_beat out resolves id 0 net).1 ≡ true
    unfolding try_beat resolve_parts
    try_beat-throws net e = rw (try_beat, e, parts, unknown) refl

    -- Nothing is left to do after a server that cannot be resolved.
    server_stops :
        (count k : ℕ) (after : ServerMap) (net : Net)
        → Client.fix_get (Client.name id 0) net.clients ≡ none
        → try_servers (try_beat out resolves) (suc count) ((k, id) ∷ after) net
          ≡ try_servers (try_beat out resolves) (suc count) ((k, id) ∷ []) net
    unfolding try_servers try_names
    server_stops count k after net e = rw (try_beat-throws net e) refl

    after_stop :
        (count k : ℕ) (after : ServerMap) (r : Attempt)
        → Client.fix_get (Client.name id 0) r.0.clients ≡ none
        → go_on r (try_servers (try_beat out resolves) (suc count) ((k, id) ∷ after))
          ≡ go_on r (try_servers (try_beat out resolves) (suc count) ((k, id) ∷ []))
    after_stop count k after (net, true) e = refl
    after_stop count k after (net, false) e = server_stops count k after net e

    -- A server that has no session under its first name, and whose host the resolver does not find, ends
    -- the turn: the servers that come after it in the map get no keepalive and no connection, as if they
    -- were not there.
    pub heart_turn_stops :
        (count k : ℕ) (before after : ServerMap) (net : Net)
        → Client.fix_get (Client.name id 0) (heart_turn out resolves (suc count) before net).clients
          ≡ none
        → heart_turn out resolves (suc count) (before ++ ((k, id) ∷ after)) net
          ≡ heart_turn out resolves (suc count) (before ++ ((k, id) ∷ [])) net
    unfolding heart_turn
    heart_turn_stops count k before after net e =
        let first = try_servers (try_beat out resolves) (suc count) before net in
        ap (λ r. r.0)
          (try_servers-append (suc count) before ((k, id) ∷ after) net
            ∙ after_stop count k after first e
            ∙ sym (try_servers-append (suc count) before ((k, id) ∷ []) net))
