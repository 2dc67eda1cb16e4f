-- ===== src/Base/Maps.antt =====
-- `std::map`: entries in the order of their keys. `m[k] = v` is `insert`, `find` and `it->second` are
-- `lookup`, `erase(k)` is `erase`.
use mathlib.Core.Path.{◌≡◌, refl}
use mathlib.Core.Logic.{◌↔◌}
use mathlib.Core.Bool.{Bool, true, false}
use mathlib.Core.Option.{Option, none, some}
use mathlib.Core.List.{List, [], ◌∷◌}
use native.Mathlib.Omega.{arith}
use bserver.Base.Tests.{if◌then◌else◌}
use bserver.Base.Text.{Bytes, bytes_eq, bytes_lt, bytes_eq_iff, bytes_lt_total}

-- What `std::map` asks of its keys.
pub record Key (K : Type 0) : Type 0 where
  pub beq : K → K → Bool
  pub lt : K → K → Bool
  pub beq_iff : (j k : K) → (beq j k ≡ true) ↔ (j ≡ k)
  pub lt_total : (j k : K) → lt j k ≡ false → lt k j ≡ false → j ≡ k

instance abbrev pub bytes_key : Key Bytes
bytes_key = record {
  beq = bytes_eq;
  lt = bytes_lt;
  beq_iff = bytes_eq_iff;
  lt_total = bytes_lt_total;
}

abbrev pub Map : Type 0 → Type 0 → Type 0
Map K V = List (K × V)

module _ {K V : Type 0} ⦃o : Key K⦄ where
  unfoldable pub lookup : K → Map K V → Option V
  lookup k [] = none
  lookup k ((j, v) ∷ m) = if o.beq j k then some v else lookup k m

  unfoldable pub insert : K → V → Map K V → Map K V
  insert k v [] = (k, v) ∷ []
  insert k v ((j, w) ∷ m) =
      let rest = insert k v m in
      if o.lt k j then (k, v) ∷ (j, w) ∷ m else if o.lt j k then (j, w) ∷ rest else (k, v) ∷ m

  unfoldable pub erase : K → Map K V → Map K V
  erase k [] = []
  erase k ((j, v) ∷ m) = let rest = erase k m in if o.beq j k then rest else (j, v) ∷ rest

  pub lookup-insert :
      (k j : K) (v : V) (m : Map K V)
      → lookup j (insert k v m) ≡ (if o.beq k j then some v else lookup j m)
  unfolding lookup insert
  lookup-insert k j v [] = refl
  lookup-insert k j v ((i, w) ∷ m) =
      ground (arith, lookup-insert k j v m, o.lt_total k i, o.beq_iff i j, o.beq_iff k j)

  pub lookup-erase :
      (k j : K) (m : Map K V) → lookup j (erase k m) ≡ (if o.beq k j then none else lookup j m)
  unfolding lookup erase
  lookup-erase k j [] = ground arith
  lookup-erase k j ((i, w) ∷ m) =
      ground (arith, lookup-erase k j m, o.beq_iff i k, o.beq_iff i j, o.beq_iff k j)

pub beq_refl : {K : Type 0} ⦃o : Key K⦄ (k : K) → o.beq k k ≡ true
beq_refl ⦃o⦄ k = (o.beq_iff k k).1 refl

pub ruleset map_laws = (lookup-insert, lookup-erase)
