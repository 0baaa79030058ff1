-- ===== src/Tools/Positions.antt =====
-- `pos` and `lastpos` find the first and the last occurrence of a character.
use miau.Prelude.{
  ℕ, zero, suc, ◌+◌, ◌<◌, ◌≤◌, ◌≡◌, ◌≢◌, Option, none, some, [], ◌∷◌, Text, arith, ==_refl, ==_ne,
  ℕ_discrete, zero-add, length, get_or,
}
use miau.Tools.{pos_from, pos, lastpos_below, lastpos}

-- What a search for the character `c` of `s` promises, with index `i` and `n` for the indices.
abbrev pub IsFirst : Text → ℕ → Option ℕ → Type 0
IsFirst s c none = (j : ℕ) → j < length s → get_or s j 0 ≢ c
IsFirst s c (some i) = (i < length s) × (get_or s i 0 ≡ c) × ((j : ℕ) → j < i → get_or s j 0 ≢ c)

abbrev pub IsLast : Text → ℕ → Option ℕ → Type 0
IsLast s c none = (j : ℕ) → j ≤ length s → get_or s j 0 ≢ c
IsLast s c (some i) =
    (i ≤ length s) × (get_or s i 0 ≡ c) × ((j : ℕ) → i < j → j ≤ length s → get_or s j 0 ≢ c)

-- The result of the loop that began at `i`.
abbrev Found : ℕ → Text → ℕ → Option ℕ → Type 0
Found i s c none = (j : ℕ) → j < length s → get_or s j 0 ≢ c
Found i s c (some k) =
    (m : ℕ) × (k ≡ i + m)
    × (m < length s)
    × (get_or s m 0 ≡ c)
    × ((j : ℕ) → j < m → get_or s j 0 ≢ c)

Found-cons :
    (i d : ℕ) (s : Text) (c : ℕ) (r : Option ℕ) → d ≢ c → Found (i + 1) s c r → Found i (d ∷ s) c r
Found-cons i d s c none ne h = elim [ zero ↦ λ lt. ne | suc j ↦ λ lt. h j (omega arith) ]
Found-cons i d s c (some k) ne (m, e, lt, at, before) =
    (suc m, omega arith, omega arith, at, earlier)
  where
    earlier : (j : ℕ) → j < suc m → get_or (d ∷ s) j 0 ≢ c
    earlier zero l = ne
    earlier (suc j) l = before j (omega arith)

pos_from-Found : (i : ℕ) (s : Text) (c : ℕ) → Found i s c (pos_from i s c)
unfolding pos_from
pos_from-Found i [] c = λ j lt. elim lt [ ]
pos_from-Found i (d ∷ s) c = elim (ℕ_discrete d c) [
  | yes e ↦ rw (==_refl d c e) (0, omega arith, omega arith, e, λ j lt. elim lt [ ])
  | no ne ↦ rw (==_ne d c ne) (Found-cons i d s c _ ne (pos_from-Found (i + 1) s c))
]

Found→IsFirst : (s : Text) (c : ℕ) (r : Option ℕ) → Found 0 s c r → IsFirst s c r
Found→IsFirst s c none h = h
Found→IsFirst s c (some k) (m, e, lt, at, before) = rw (e, zero-add) (lt, at, before)

-- `pos` gives the index of the first occurrence, and none exactly where there is no occurrence.
pub pos-IsFirst : (s : Text) (c : ℕ) → IsFirst s c (pos s c)
unfolding pos
pos-IsFirst s c = Found→IsFirst s c _ (pos_from-Found 0 s c)

abbrev FoundBelow : ℕ → Text → ℕ → Option ℕ → Type 0
FoundBelow n s c none = (j : ℕ) → j < n → get_or s j 0 ≢ c
FoundBelow n s c (some i) =
    (i < n) × (get_or s i 0 ≡ c) × ((j : ℕ) → i < j → j < n → get_or s j 0 ≢ c)

FoundBelow-suc :
    (n : ℕ) (s : Text) (c : ℕ) (r : Option ℕ)
    → get_or s n 0 ≢ c
    → FoundBelow n s c r
    → FoundBelow (suc n) s c r
FoundBelow-suc n s c none ne h =
    λ j lt. elim (ℕ_discrete j n) [ yes e ↦ rw e ne | no k ↦ h j (omega arith) ]
FoundBelow-suc n s c (some i) ne (lt, at, after) = (
  omega arith,
  at,
  λ j l m. elim (ℕ_discrete j n) [ yes e ↦ rw e ne | no k ↦ after j l (omega arith) ],
)

lastpos_below-FoundBelow : (n : ℕ) (s : Text) (c : ℕ) → FoundBelow n s c (lastpos_below n s c)
unfolding lastpos_below
lastpos_below-FoundBelow zero s c = λ j lt. elim lt [ ]
lastpos_below-FoundBelow (suc n) s c = elim (ℕ_discrete (get_or s n 0) c) [
  | yes e ↦ rw (==_refl _ c e) (omega arith, e, λ j l m. absurd (omega arith))
  | no ne ↦ rw (==_ne _ c ne) (FoundBelow-suc n s c _ ne (lastpos_below-FoundBelow n s c))
]

FoundBelow→IsLast :
    (s : Text) (c : ℕ) (r : Option ℕ) → FoundBelow (length s + 1) s c r → IsLast s c r
FoundBelow→IsLast s c none h = λ j lt. h j (omega arith)
FoundBelow→IsLast s c (some i) (lt, at, after) = (omega arith, at, λ j l m. after j l (omega arith))

-- `lastpos` gives the index of the last occurrence, the terminator counted as a character of the
-- text, and none exactly where there is no occurrence.
pub lastpos-IsLast : (s : Text) (c : ℕ) → IsLast s c (lastpos (some s) c)
unfolding lastpos
lastpos-IsLast s c = FoundBelow→IsLast s c _ (lastpos_below-FoundBelow (length s + 1) s c)
