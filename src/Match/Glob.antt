-- ===== src/Match/Glob.antt =====
-- What it means for a text to match a pattern, with no order of search in it.
use miau.Prelude.{ℕ, ◌≡◌, ◌≢◌, ◌⊎◌, [], ◌∷◌, Text, All}

pub data Glob : Text → Text → Type 0 where
  done : Glob [] []
  one : {q c : ℕ} {p s : Text} → (q ≡ c) ⊎ (q ≡ b'?') → Glob p s → Glob (q ∷ p) (c ∷ s)
  leave : {q : ℕ} {p s : Text} → q ≡ b'*' → Glob p s → Glob (q ∷ p) s
  more : {q c : ℕ} {p s : Text} → q ≡ b'*' → Glob (q ∷ p) s → Glob (q ∷ p) (c ∷ s)

-- Texts in which no character is the star or the terminator, and patterns without a star.
abbrev pub NoStar : Text → Type 0
NoStar = All (λ c. c ≢ b'*')

abbrev pub IsPlain : Text → Type 0
IsPlain = All (λ c. (c ≢ b'*') × (c ≢ 0))

pub Glob-one_inv :
    {q c : ℕ} {p s : Text} → q ≢ b'*' → Glob (q ∷ p) (c ∷ s) → ((q ≡ c) ⊎ (q ≡ b'?')) × Glob p s
Glob-one_inv ne (one h g) = (h, g)
Glob-one_inv ne (leave e g) = absurd (ne e)
Glob-one_inv ne (more e g) = absurd (ne e)

pub Glob-nil_inv : {q : ℕ} {p : Text} → q ≢ b'*' → ¬ Glob (q ∷ p) []
Glob-nil_inv ne (leave e g) = ne e
