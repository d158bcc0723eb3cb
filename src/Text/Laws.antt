-- ===== src/Text/Laws.antt =====
-- What the string functions return.
use emac_driver.Common.{◌≡◌, refl, arith, [], ◌∷◌, ◌↔◌}
use emac_driver.Text.{Text, IsText, strcmp}

strcmp_zero : (s t : Text) → IsText s → IsText t → strcmp s t ≡ 0 → s ≡ t
unfolding strcmp
strcmp_zero [] [] h k e = refl
strcmp_zero [] (d ∷ t) h k e = absurd (omega arith)
strcmp_zero (c ∷ s) [] h k e = absurd (omega arith)
strcmp_zero (c ∷ s) (d ∷ t) h k e = ground (arith, strcmp_zero s t h.2 k.2)

pub strcmp_self : (s : Text) → strcmp s s ≡ 0
unfolding strcmp
strcmp_self [] = refl
strcmp_self (c ∷ s) = ground (arith, strcmp_self s)

-- `strcmp` returns 0 exactly for equal strings.
pub strcmp_iff : (s t : Text) → IsText s → IsText t → (strcmp s t ≡ 0) ↔ (s ≡ t)
strcmp_iff s t h k = (strcmp_zero s t h k, λ e. rw e (strcmp_self t))
