-- ===== src/Match/Replace.antt =====
-- `match_replace`: which place is replaced, and where the search for it faults.
use miau.Prelude.{
  ℕ, zero, suc, ◌+◌, ◌-◌, ◌≤◌, ◌<◌, ◌≡◌, ◌↔◌, refl, inl, inr, true, false, Option, some, none, [],
  ◌∷◌, ◌++◌, Text, Bool-cases, arith, ap, length, length-append, take, drop, leb, ℕ_discrete,
}
use miau.Common.{strncmp_zero, xstrncmp}
use miau.Match.{match, find_last, match_replaced, match_replace}

-- `foo` stands in the pattern at index `at`, as `strncmp` tells over `len` characters.
abbrev pub Occurs : Text → Text → ℕ → ℕ → Type 0
Occurs pattern foo len at = strncmp_zero (drop at pattern) foo len ≡ true

find_last-at :
    (pattern foo : Text) (len at n : ℕ)
    → Occurs pattern foo len at
    → ((j : ℕ) → at < j → j < n → ¬ Occurs pattern foo len j)
    → at < n
    → find_last pattern foo len n ≡ some at
unfolding find_last xstrncmp
find_last-at pattern foo len at zero here later lt = elim lt [ ]
find_last-at pattern foo len at (suc n) here later lt = elim (ℕ_discrete at n) [
  | yes e ↦ rw (← e, here)
  | no ne ↦
      let miss : strncmp_zero (drop n pattern) foo len ≡ false =
        ground (arith, later n (omega arith) (omega arith)) in
      rw miss
        (find_last-at pattern foo len at n here (λ j l m. later j l (omega arith)) (omega arith))
]

take-length : (a t : Text) → take (length a) (a ++ t) ≡ a
take-length [] t = refl
take-length (c ∷ a) t = ap (◌∷◌ c) (take-length a t)

drop-length : (a t : Text) → drop (length a) (a ++ t) ≡ t
drop-length [] t = refl
drop-length (c ∷ a) t = drop-length a t

strncmp_zero_self : (foo t : Text) → strncmp_zero (foo ++ t) foo (length foo) ≡ true
strncmp_zero_self [] t = refl
strncmp_zero_self (c ∷ foo) t = ground (arith, strncmp_zero_self foo t)

-- The last place of `foo` in the pattern is replaced, and the text is matched against the result.
pub match_replace-last :
    (string : Option Text) (a foo b replace : Text)
    → ((j : ℕ)
        → length a < j
        → j + length foo ≤ length (a ++ (foo ++ b))
        → ¬ Occurs (a ++ (foo ++ b)) foo (length foo) j)
    → match_replace string (a ++ (foo ++ b)) (some foo) (some (length foo)) (some replace)
      ≡ some (match string (some (a ++ (replace ++ b))))
unfolding match_replace match_replaced
match_replace-last string a foo b replace last =
    let size : length (a ++ (foo ++ b)) ≡ length a + (length foo + length b) =
      omega (arith, length-append a (foo ++ b), length-append foo b) in
    let fits : leb (length foo) (length (a ++ (foo ++ b))) ≡ true = ground arith in
    let found : find_last (a ++ (foo ++ b)) foo (length foo)
          (suc (length (a ++ (foo ++ b)) - length foo))
        ≡ some (length a) =
      find_last-at (a ++ (foo ++ b)) foo (length foo) (length a)
        (suc (length (a ++ (foo ++ b)) - length foo))
        (rw (drop-length a (foo ++ b), drop) (strncmp_zero_self foo b))
        (λ j l m. last j l (omega arith)) (omega arith) in
    rw fits (rw (found, take-length a (foo ++ b), drop-length a (foo ++ b), drop-length foo b))

-- With a placeholder and a replacement the call faults exactly where the placeholder is longer than
-- the pattern by two characters or more.
pub match_replace-faults_iff :
    (string : Option Text) (pattern foo replace : Text) (len : ℕ)
    → (match_replace string pattern (some foo) (some len) (some replace) ≡ none)
      ↔ (length pattern + 2 ≤ len)
unfolding match_replace match_replaced
match_replace-faults_iff string pattern foo replace len =
    elim (Bool-cases (leb len (length pattern))) [
      | inl e ↦ rw e (ground arith)
      | inr e ↦ rw e (ground arith)
    ]
