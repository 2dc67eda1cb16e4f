-- ===== src/Base/Perms.antt =====
-- Permutations of lists that grow at the end, and from whose middle elements are taken.
use mathlib.Core.List.{Perm, perm_middle}
use mathlib.Core.List.Perm
use bserver.Base.{◌≡◌, List, [], ◌∷◌, ◌++◌, append_assoc}

module _ {A : Type 0} (f p q : List A) where
  pub perm_finish :
      (x : A) (before after : List A)
      → Perm (f ++ (before ++ (x ∷ after)) ++ q) p
      → Perm (f ++ (x ∷ []) ++ (before ++ after) ++ q) p
  perm_finish x before after v =
      let moved : Perm (f ++ (before ++ (x ∷ after))) (f ++ (x ∷ (before ++ after))) =
        Perm.append_left f (perm_middle before after) in
      let same : f ++ (x ∷ []) ++ (before ++ after) ≡ f ++ (x ∷ (before ++ after)) =
        append_assoc f (x ∷ []) (before ++ after) in
      rw same (Perm.trans (Perm.symm (Perm.append_right q moved)) v)

  pub perm_come : (x : A) → Perm (f ++ q) p → Perm (f ++ (q ++ (x ∷ []))) (p ++ (x ∷ []))
  perm_come x v = rw (← append_assoc f q (x ∷ [])) (Perm.append_right (x ∷ []) v)

pub take_up_eq :
    {A : Type 0} (f s q : List A) (x : A) → f ++ (s ++ (x ∷ [])) ++ q ≡ f ++ s ++ (x ∷ q)
take_up_eq f s q x = simp (append_assoc)
