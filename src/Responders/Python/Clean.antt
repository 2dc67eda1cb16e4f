-- ===== src/Responders/Python/Clean.antt =====
-- The text that replaces an exception in embeded_python/python_func_service_responser.cpp.
use bserver.Base.{ℕ, ◌≡◌, refl, ap, ◌∙◌, [], ◌∷◌, Bytes, ◌==◌, if◌then◌else◌, arith}
use bserver.Responders.Python.{replace_from, one_line}

-- The bytes of a text other than `c`.
unfoldable pub without : ℕ → Bytes → Bytes
without c [] = []
without c (x ∷ s) = let rest = without c s in if x == c then rest else x ∷ rest

replace_from-without : (c : ℕ) (s : Bytes) → replace_from 0 (c ∷ []) [] s ≡ without c s
unfolding replace_from without
replace_from-without c [] = refl
replace_from-without c (x ∷ s) = ground (arith, replace_from-without c s)

-- Removing line ends leaves the other bytes, in their order.
pub one_line_lem : (s : Bytes) → one_line s ≡ without 10 (without 13 s)
unfolding one_line
one_line_lem s =
    replace_from-without 10 (replace_from 0 (13 ∷ []) [] s)
    ∙ ap (without 10) (replace_from-without 13 s)
