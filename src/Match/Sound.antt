-- ===== src/Match/Sound.antt =====
-- What `match` accepts is a match.
use miau.Prelude.{
  ℕ, ◌≡◌, ◌⊎◌, inl, inr, true, false, ◌||◌, some, [], ◌∷◌, Text, ◌==◌, head0, Bool-cases, ==_sound,
  arith,
}
use miau.Tools.{upcase}
use miau.Match.{match_loop, match}
use miau.Match.Glob.{Glob, done, one, leave, more}

-- The test for a literal character or a question mark.
pub one_test : (c q : ℕ) → ((c == q) || (q == b'?')) ≡ true → (q ≡ c) ⊎ (q ≡ b'?')
one_test c q h = ground arith

-- The branch of the star, whatever the three calls give.
star_branch :
    (c q : ℕ) (s p : Text)
    → (match_loop s p ≡ true → Glob p s)
    → (match_loop (c ∷ s) p ≡ true → Glob p (c ∷ s))
    → (match_loop s (q ∷ p) ≡ true → Glob (q ∷ p) s)
    → ((c == q) || (q == b'?')) ≡ false
    → match_loop (c ∷ s) (q ∷ p) ≡ true
    → Glob (q ∷ p) (c ∷ s)
unfolding match_loop
star_branch c q s p both pattern_on text_on e h = elim (Bool-cases (q == b'*')) [
  | inl star ↦
      let isStar : q ≡ b'*' = ==_sound q b'*' star in
      let h₁ = rw (e, star) at h in
      elim (Bool-cases (c == head0 p)) [
        | inl f ↦ leave isStar (pattern_on (rw f at h₁))
        | inr f ↦ elim (Bool-cases (head0 p == head0 s)) [
          | inl g ↦ more isStar (leave isStar (both (rw (f, g) at h₁)))
          | inr g ↦ more isStar (text_on (rw (f, g) at h₁))
        ]
      ]
  | inr star ↦ absurd (ground arith)
]

match_loop-Glob : (s p : Text) → match_loop s p ≡ true → Glob p s
unfolding match_loop
match_loop-Glob [] [] h = done
match_loop-Glob [] (q ∷ []) h = leave (==_sound q b'*' h) done
match_loop-Glob [] (q ∷ r ∷ p) h = ground arith
match_loop-Glob (c ∷ s) [] h = ground arith
match_loop-Glob (c ∷ s) (q ∷ p) h = elim (Bool-cases ((c == q) || (q == b'?'))) [
  | inl e ↦ one (one_test c q e) (match_loop-Glob s p (rw e at h))
  | inr e ↦
      star_branch c q s p (match_loop-Glob s p) (match_loop-Glob (c ∷ s) p)
        (match_loop-Glob s (q ∷ p)) e h
]

-- What `match` accepts is a match of the pattern, both in upper case.
pub match-Glob : (s p : Text) → match (some s) (some p) ≡ true → Glob (upcase p) (upcase s)
unfolding match
match-Glob s p h = match_loop-Glob (upcase s) (upcase p) h
