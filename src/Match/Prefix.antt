-- ===== src/Match/Prefix.antt =====
-- The patterns on which `match` is exact: those without a star, and those with one star at the end.
use miau.Prelude.{
  ℕ, ◌≡◌, ◌≢◌, ◌↔◌, refl, ◌⊎◌, true, ◌||◌, some, [], ◌∷◌, ◌++◌, Text, ◌==◌, arith, ◌∙◌,
}
use miau.Tools.{to_upper, upcase}
use miau.Tools.Case.{upcase-append}
use miau.Match.{match_loop, match}
use miau.Match.Glob.{Glob, NoStar, IsPlain, Glob-one_inv, Glob-nil_inv}
use miau.Match.Sound.{match-Glob}

pub one_test_iff : (c q : ℕ) → (q ≡ c) ⊎ (q ≡ b'?') → ((c == q) || (q == b'?')) ≡ true
one_test_iff c q h = ground arith

-- A character that fits is passed over on both sides.
pub match_loop-one :
    (c q : ℕ) (s p : Text) → (q ≡ c) ⊎ (q ≡ b'?') → match_loop (c ∷ s) (q ∷ p) ≡ match_loop s p
unfolding match_loop
match_loop-one c q s p h = rw (one_test_iff c q h)

-- One star is left, and the text has neither a star nor a terminator in it.
star_alone : (s : Text) → IsPlain s → match_loop s (b'*' ∷ []) ≡ true
unfolding match_loop
star_alone [] h = refl
star_alone (c ∷ []) h = ground arith
star_alone (c ∷ d ∷ s) h = ground (arith, star_alone (d ∷ s))

match_loop-prefix_complete :
    (s w : Text)
    → NoStar w
    → IsPlain s
    → Glob (w ++ b'*' ∷ []) s
    → match_loop s (w ++ b'*' ∷ []) ≡ true
match_loop-prefix_complete s [] n t g = star_alone s t
match_loop-prefix_complete [] (q ∷ w) n t g = absurd (Glob-nil_inv n.0 g)
match_loop-prefix_complete (c ∷ s) (q ∷ w) n t g =
    let (fits, rest) = Glob-one_inv n.0 g in
    match_loop-one c q s (w ++ b'*' ∷ []) fits ∙ match_loop-prefix_complete s w n.1 t.1 rest

to_upper-star : (c : ℕ) → c ≢ b'*' → to_upper c ≢ b'*'
unfolding to_upper
to_upper-star c h = ground arith

to_upper-zero : (c : ℕ) → c ≢ 0 → to_upper c ≢ 0
unfolding to_upper
to_upper-zero c h = ground arith

pub upcase-NoStar : (s : Text) → NoStar s → NoStar (upcase s)
unfolding upcase
upcase-NoStar [] h = tt
upcase-NoStar (c ∷ s) h = (to_upper-star c h.0, upcase-NoStar s h.1)

pub upcase-IsPlain : (s : Text) → IsPlain s → IsPlain (upcase s)
unfolding upcase
upcase-IsPlain [] h = tt
upcase-IsPlain (c ∷ s) h = ((to_upper-star c h.0.0, to_upper-zero c h.0.1), upcase-IsPlain s h.1)

-- For a pattern of characters other than the star with one star behind them, and a text without a
-- star in it, `match` says yes exactly where the pattern matches, in upper case.
pub match-prefix_iff :
    (s w : Text)
    → NoStar w
    → IsPlain s
    → (match (some s) (some (w ++ b'*' ∷ [])) ≡ true) ↔ Glob (upcase (w ++ b'*' ∷ [])) (upcase s)
unfolding match upcase to_upper
match-prefix_iff s w n t = (
  match-Glob s (w ++ b'*' ∷ []),
  rw (upcase-append w (b'*' ∷ []))
      (match_loop-prefix_complete (upcase s) (upcase w) (upcase-NoStar w n) (upcase-IsPlain s t)),
)
