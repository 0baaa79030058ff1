-- ===== src/Match/Misses.antt =====
-- A star in front of a character goes to the first place of that character and never tries a later
-- one. So some matches are missed.
use miau.Prelude.{ℕ, ◌≡◌, ◌≢◌, refl, inl, false, some, [], ◌∷◌, ◌++◌, Text, arith, All}
use miau.Tools.{to_upper, upcase}
use miau.Tools.Case.{upcase-append}
use miau.Match.{match_loop, match}
use miau.Match.Prefix.{match_loop-one}

-- The text has neither a star nor `x` in it.
abbrev pub Avoids : ℕ → Text → Type 0
Avoids x = All (λ c. (c ≢ b'*') × (c ≢ x))

-- What follows the star goes on behind the first `x` of the text.
pub match_loop-first :
    (a : Text) (x : ℕ) (b w : Text)
    → x ≢ b'*'
    → Avoids x a
    → match_loop (a ++ x ∷ b) (b'*' ∷ x ∷ w) ≡ match_loop b w
unfolding match_loop
match_loop-first [] x b w ne h = ground (arith, match_loop-one x x b w (inl refl))
match_loop-first (c ∷ []) x b w ne h = ground (arith, match_loop-one x x b w (inl refl))
match_loop-first (c ∷ d ∷ a) x b w ne h = ground (arith, match_loop-first (d ∷ a) x b w ne h.1)

-- Without `x` in the text there is no match.
pub match_loop-absent :
    (s : Text) (x : ℕ) (w : Text) → x ≢ 0 → Avoids x s → match_loop s (b'*' ∷ x ∷ w) ≡ false
unfolding match_loop
match_loop-absent [] x w ne h = refl
match_loop-absent (c ∷ []) x w ne h = ground arith
match_loop-absent (c ∷ d ∷ s) x w ne h = ground (arith, match_loop-absent (d ∷ s) x w ne h.1)

-- After the first `x` of the text only the rest of the pattern counts, with no way back.
pub match-first :
    (a : Text) (x : ℕ) (b w : Text)
    → to_upper x ≢ b'*'
    → Avoids (to_upper x) (upcase a)
    → match (some (a ++ x ∷ b)) (some (b'*' ∷ x ∷ w)) ≡ match (some b) (some w)
unfolding match upcase to_upper
match-first a x b w ne h =
    rw (upcase-append a (x ∷ b))
      (match_loop-first (upcase a) (to_upper x) (upcase b) (upcase w) ne h)

-- A star and a question mark together match every text that is not empty, and `match` says no on
-- each text that has neither of the two in it.
pub match-star_any :
    (s : Text) → Avoids b'?' (upcase s) → match (some s) (some (b'*' ∷ b'?' ∷ [])) ≡ false
unfolding match upcase to_upper
match-star_any s h = match_loop-absent (upcase s) b'?' [] (omega arith) h
