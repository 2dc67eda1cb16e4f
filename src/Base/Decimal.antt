-- ===== src/Base/Decimal.antt =====
-- `ss << n` for a number that is not negative: its decimal digits.
use Prim.Native.Nat.{ℕ, zero, suc, ◌+◌, ◌-◌, ◌*◌, ◌/◌, ◌%◌, ◌<◌}
use mathlib.Core.Path.{◌≡◌, refl, sym, ap, ◌∙◌}
use mathlib.Core.Logic.{inl, inr}
use mathlib.Core.List.{[], ◌∷◌, ◌++◌}
use native.Mathlib.Omega.{arith}
use bserver.Base.Tests.{ltb, if◌then◌else◌, Bool-cases}
use bserver.Base.Lists.{All}
use bserver.Base.Text.{Bytes}

-- A number below the fuel has fewer digits than the fuel.
digits_loop : ℕ → ℕ → Bytes
digits_loop zero n = []
digits_loop (suc f) n =
    let rest = digits_loop f (n / 10) in
    if ltb n 10 then (n + 48) ∷ [] else rest ++ ((n % 10 + 48) ∷ [])

unfoldable pub decimal : ℕ → Bytes
unfolding digits_loop
decimal n = digits_loop (suc n) n

value_from : ℕ → Bytes → ℕ
value_from acc [] = acc
value_from acc (c ∷ s) = value_from (acc * 10 + (c - 48)) s

value_from-snoc :
    (acc : ℕ) (s : Bytes) (c : ℕ)
    → value_from acc (s ++ (c ∷ [])) ≡ value_from acc s * 10 + (c - 48)
unfolding value_from
value_from-snoc acc [] c = refl
value_from-snoc acc (d ∷ s) c = value_from-snoc (acc * 10 + (d - 48)) s c

value_from-digits : (f n : ℕ) → n < f → value_from 0 (digits_loop f n) ≡ n
unfolding digits_loop value_from
value_from-digits zero n h = absurd (omega arith)
value_from-digits (suc f) n h =
    ground (
      arith,
      value_from-digits f (n / 10),
      value_from-snoc 0 (digits_loop f (n / 10)) (n % 10 + 48),
    )

-- Different numbers print differently.
pub decimal-injective : (m n : ℕ) → decimal m ≡ decimal n → m ≡ n
unfolding decimal
decimal-injective m n e =
    sym (value_from-digits (suc m) m (omega arith))
    ∙ ap (value_from 0) e
    ∙ value_from-digits (suc n) n (omega arith)

abbrev pub NoColon : Bytes → Type 0
NoColon = All (λ c. c < 58)

All-snoc : (P : ℕ → Type 0) (s : Bytes) (c : ℕ) → All P s → P c → All P (s ++ (c ∷ []))
All-snoc P [] c h k = (k, tt)
All-snoc P (d ∷ s) c h k = (h.0, All-snoc P s c h.1 k)

digits_loop-NoColon : (f n : ℕ) → NoColon (digits_loop f n)
unfolding digits_loop
digits_loop-NoColon zero n = tt
digits_loop-NoColon (suc f) n = elim (Bool-cases (ltb n 10)) [
  | inl small ↦ rw small (ground arith, tt)
  | inr large ↦ rw large (
      All-snoc (λ c. c < 58) (digits_loop f (n / 10)) (n % 10 + 48) (digits_loop-NoColon f (n / 10))
        (omega arith))
]

-- A printed number holds digits only, which stand below `:`.
pub decimal-NoColon : (n : ℕ) → NoColon (decimal n)
unfolding decimal
decimal-NoColon n = digits_loop-NoColon (suc n) n

thirty : decimal 307 ≡ 51 ∷ 48 ∷ 55 ∷ []
unfolding decimal
thirty = refl
