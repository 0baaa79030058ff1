-- ===== src/Tools/Case.antt =====
-- Case conversion: upper and lower case agree on what they identify.
use miau.Prelude.{ℕ, ◌≡◌, refl, ap, ◌↔◌, [], ◌∷◌, ◌++◌, Text, arith}
use miau.Tools.{to_upper, to_lower, upcase, lowcase}

pub to_upper-to_lower : (c : ℕ) → to_upper (to_lower c) ≡ to_upper c
unfolding to_upper to_lower
to_upper-to_lower c = ground arith

to_lower-to_upper : (c : ℕ) → to_lower (to_upper c) ≡ to_lower c
unfolding to_upper to_lower
to_lower-to_upper c = ground arith

pub upcase-lowcase : (s : Text) → upcase (lowcase s) ≡ upcase s
unfolding upcase lowcase
upcase-lowcase [] = refl
upcase-lowcase (c ∷ s) = cc (to_upper-to_lower c, upcase-lowcase s)

lowcase-upcase : (s : Text) → lowcase (upcase s) ≡ lowcase s
unfolding upcase lowcase
lowcase-upcase [] = refl
lowcase-upcase (c ∷ s) = cc (to_lower-to_upper c, lowcase-upcase s)

pub upcase-append : (s t : Text) → upcase (s ++ t) ≡ upcase s ++ upcase t
unfolding upcase
upcase-append [] t = refl
upcase-append (c ∷ s) t = ap (◌∷◌ (to_upper c)) (upcase-append s t)

-- Two texts have the same upper case exactly when they have the same lower case.
pub upcase-lowcase_iff : (s t : Text) → (upcase s ≡ upcase t) ↔ (lowcase s ≡ lowcase t)
upcase-lowcase_iff s t = (
  λ e. cc (ap lowcase e, lowcase-upcase s, lowcase-upcase t),
  λ e. cc (ap upcase e, upcase-lowcase s, upcase-lowcase t),
)
