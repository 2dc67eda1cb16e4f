-- ===== src/Peers/Names.antt =====
-- The names `server:i` of src/peer_handle_map.cpp determine their server and their number.
use bserver.Base.{
  ℕ, ◌≡◌, refl, [], ◌∷◌, ◌++◌, Bytes, decimal, decimal-injective, decimal-NoColon, NoColon, arith,
}
use bserver.Peers.Client.{name}

colon-inside : (t e : Bytes) → ¬ NoColon (t ++ (58 ∷ e))
colon-inside [] e x = absurd (omega (arith, x.0))
colon-inside (b ∷ t) e x = colon-inside t e x.1

-- Two texts split at their last colon: what follows has none.
last_colon :
    (s t d e : Bytes) → NoColon d → NoColon e → s ++ (58 ∷ d) ≡ t ++ (58 ∷ e) → (s ≡ t) × (d ≡ e)
last_colon [] [] d e x y p = (refl, ground arith)
last_colon [] (b ∷ t) d e x y p =
    absurd (let q : d ≡ t ++ (58 ∷ e) = cc in colon-inside t e (rw q at x))
last_colon (a ∷ s) [] d e x y p =
    absurd (let q : e ≡ s ++ (58 ∷ d) = cc in colon-inside s d (rw q at y))
last_colon (a ∷ s) (b ∷ t) d e x y p = ground (arith, last_colon s t d e x y)

pub name-injective : (s t : Bytes) (i j : ℕ) → name s i ≡ name t j → (s ≡ t) × (i ≡ j)
unfolding name
name-injective s t i j p =
    let (e, f) = last_colon s t (decimal i) (decimal j) (decimal-NoColon i) (decimal-NoColon j) p in
    (e, decimal-injective i j f)
