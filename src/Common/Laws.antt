-- ===== src/Common/Laws.antt =====
-- `xstrcasecmp` is an equivalence on texts: equality of the lower case.
use miau.Prelude.{
  ◌≡◌, ◌↔◌, refl, sym, true, [], ◌∷◌, ◌++◌, Text, text_eq→eq, text_eq_refl, arith, length, drop,
}
use miau.Tools.{lowcase}
use miau.Common.{strncmp_zero, same_nocase}

pub same_nocase_iff : (s t : Text) → (same_nocase s t ≡ true) ↔ (lowcase s ≡ lowcase t)
unfolding same_nocase
same_nocase_iff s t =
    (λ h. text_eq→eq (lowcase s) (lowcase t) h, λ e. rw e (text_eq_refl (lowcase t)))

pub same_nocase_refl : (s : Text) → same_nocase s s ≡ true
same_nocase_refl s = (same_nocase_iff s s).1 refl

same_nocase_flip : (s t : Text) → same_nocase s t ≡ true → same_nocase t s ≡ true
same_nocase_flip s t h = (same_nocase_iff t s).1 (sym ((same_nocase_iff s t).0 h))

pub same_nocase_sym : (s t : Text) → same_nocase s t ≡ same_nocase t s
same_nocase_sym s t = ground (arith, same_nocase_flip s t, same_nocase_flip t s)

pub same_nocase_trans :
    (s t u : Text) → same_nocase s t ≡ true → same_nocase t u ≡ true → same_nocase s u ≡ true
same_nocase_trans s t u h k =
    (same_nocase_iff s u).1 (cc ((same_nocase_iff s t).0 h, (same_nocase_iff t u).0 k))

-- A text that begins with `t`, told by `strncmp` over the length of `t`.
pub strncmp_zero-prefix :
    (s t : Text) → strncmp_zero s t (length t) ≡ true → s ≡ t ++ drop (length t) s
strncmp_zero-prefix s [] h = refl
strncmp_zero-prefix [] (d ∷ t) h = ground arith
strncmp_zero-prefix (c ∷ s) (d ∷ t) h = ground (arith, strncmp_zero-prefix s t)
