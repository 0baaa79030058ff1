-- ===== src/Tools/Words.antt =====
-- `nextword` and `lastword` split a text at a space.
use miau.Prelude.{
  ℕ, zero, suc, ◌<◌, ◌≤◌, ◌≡◌, ◌⊎◌, inl, inr, ◌≢◌, refl, sym, ap, ◌∙◌, Option, none, some, [], ◌∷◌,
  ◌++◌, Text, arith, length, get_or, take, drop, All,
}
use miau.Tools.{pos, lastpos, nextword, lastword}
use miau.Tools.Positions.{IsFirst, IsLast, pos-IsFirst, lastpos-IsLast}

abbrev pub NoSpace : Text → Type 0
NoSpace = All (λ c. c ≢ b' ')

-- A text without index `i` in it is what stands before `i`, the character there and what follows.
split_at : (i : ℕ) (s : Text) → i < length s → take i s ++ get_or s i 0 ∷ drop (suc i) s ≡ s
split_at i [] h = elim h [ ]
split_at zero (c ∷ s) h = refl
split_at (suc i) (c ∷ s) h = ap (◌∷◌ c) (split_at i s (omega arith))

NoSpace-take :
    (i : ℕ) (s : Text) → i < length s → ((j : ℕ) → j < i → get_or s j 0 ≢ b' ') → NoSpace (take i s)
NoSpace-take i [] h before = elim h [ ]
NoSpace-take zero (c ∷ s) h before = tt
NoSpace-take (suc i) (c ∷ s) h before =
    (before 0 (omega arith), NoSpace-take i s (omega arith) λ j l. before (suc j) (omega arith))

NoSpace-get_or : (s : Text) → ((j : ℕ) → j < length s → get_or s j 0 ≢ b' ') → NoSpace s
NoSpace-get_or [] h = tt
NoSpace-get_or (c ∷ s) h = (h 0 (omega arith), NoSpace-get_or s λ j l. h (suc j) (omega arith))

NoSpace-drop :
    (n : ℕ) (s : Text) → ((j : ℕ) → n ≤ j → j < length s → get_or s j 0 ≢ b' ') → NoSpace (drop n s)
NoSpace-drop zero s h = NoSpace-get_or s λ j l. h j (omega arith) l
NoSpace-drop (suc n) [] h = tt
NoSpace-drop (suc n) (c ∷ s) h = NoSpace-drop n s λ j l m. h (suc j) (omega arith) (omega arith)

-- The word in front of a space and the rest, or one word and no rest.
abbrev pub IsNextWord : Text → Option Text → Type 0
IsNextWord s none = NoSpace s
IsNextWord s (some rest) = (word : Text) × (s ≡ word ++ b' ' ∷ rest) × NoSpace word

nextword_at :
    (s : Text) (r : Option ℕ)
    → IsFirst s b' ' r
    → IsNextWord s (elim r [ none ↦ none | some i ↦ some (drop (suc i) s) ])
nextword_at s none h = NoSpace-get_or s h
nextword_at s (some i) (lt, at, before) = (
  take i s,
  sym (ap (λ c. take i s ++ c ∷ drop (suc i) s) (sym at) ∙ split_at i s lt),
  NoSpace-take i s lt before,
)

-- `nextword` returns what follows the first space, and NULL exactly for a text without a space.
pub nextword-IsNextWord : (s : Text) → IsNextWord s (nextword s)
unfolding nextword
nextword-IsNextWord s = nextword_at s (pos s b' ') (pos-IsFirst s b' ')

-- One word, or the word behind a space.
abbrev pub IsLastWord : Text → Text → Type 0
IsLastWord s w = NoSpace w × ((w ≡ s) ⊎ ((front : Text) × (s ≡ front ++ b' ' ∷ w)))

-- The index of a space is not that of the terminator.
space_inside : (i : ℕ) (s : Text) → i ≤ length s → get_or s i 0 ≡ b' ' → i < length s
space_inside i [] h e = ground arith
space_inside zero (c ∷ s) h e = omega arith
space_inside (suc i) (c ∷ s) h e = omega (arith, space_inside i s (omega arith) e)

lastword_at :
    (s : Text) (r : Option ℕ)
    → IsLast s b' ' r
    → IsLastWord s (elim r [ none ↦ s | some i ↦ drop (suc i) s ])
lastword_at s none h = (NoSpace-get_or s λ j l. h j (omega arith), inl refl)
lastword_at s (some i) (le, at, after) = (
  NoSpace-drop (suc i) s (λ j l m. after j l (omega arith)),
  inr (take i s, splits (space_inside i s le at)),
)
  where
    splits : i < length s → s ≡ take i s ++ b' ' ∷ drop (suc i) s
    splits lt = sym (ap (λ c. take i s ++ c ∷ drop (suc i) s) (sym at) ∙ split_at i s lt)

-- `lastword` returns what follows the last space, the whole text where there is no space.
pub lastword-IsLastWord : (s : Text) → IsLastWord s (lastword s)
unfolding lastword
lastword-IsLastWord s = lastword_at s (lastpos (some s) b' ') (lastpos-IsLast s b' ')
