-- ===== src/Parser/Comments.antt =====
-- Comments: what stands behind a number sign outside quotes has no effect.
use miau.Prelude.{
  ℕ, ◌≡◌, ◌∙◌, refl, sym, ap, inl, inr, Bool, true, false, not, [], ◌∷◌, ◌++◌, Text, ◌==◌,
  if◌then◌else◌, arith, Bool-cases,
}
use miau.Parser.{trim, line_mode, is_space, skip_space, cut_comment, trim_end}

-- Whether the text ends inside quotes.
unfoldable pub ends_inside : Bool → Text → Bool
ends_inside inside [] = inside
ends_inside inside (c ∷ s) =
    let toggled = ends_inside (not inside) s in
    let same = ends_inside inside s in if c == b'"' then toggled else same

cut_comment-comment :
    (inside : Bool) (s rest : Text)
    → ends_inside inside s ≡ false
    → cut_comment inside (s ++ b'#' ∷ rest) ≡ cut_comment inside s
unfolding cut_comment ends_inside
cut_comment-comment inside [] rest h = rw h refl
cut_comment-comment inside (c ∷ s) rest h =
    ground (arith, cut_comment-comment (not inside) s rest, cut_comment-comment inside s rest)

space_outside :
    (inside : Bool) (c : ℕ) (s : Text)
    → is_space c ≡ true
    → ends_inside inside (c ∷ s) ≡ ends_inside inside s
unfolding ends_inside
space_outside inside c s e = ground arith

skip_space-comment :
    (s rest : Text)
    → ends_inside false s ≡ false
    → cut_comment false (skip_space (s ++ b'#' ∷ rest)) ≡ cut_comment false (skip_space s)
unfolding skip_space cut_comment
skip_space-comment [] rest h = refl
skip_space-comment (c ∷ s) rest h = elim (Bool-cases (is_space c)) [
  | inl e ↦ rw e (skip_space-comment s rest (sym (space_outside false c s e) ∙ h))
  | inr e ↦ rw e (cut_comment-comment false (c ∷ s) rest h)
]

-- A number sign that is not inside quotes, and all behind it, changes nothing of what is read.
pub trim-comment :
    (s rest : Text)
    → ends_inside false s ≡ false
    → trim (s ++ b'#' ∷ rest) line_mode ≡ trim s line_mode
unfolding trim
trim-comment s rest h = ap trim_end (skip_space-comment s rest h)
