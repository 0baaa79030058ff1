-- ===== src/Tools/Nick.antt =====
-- `randname`: the nick it makes fits, and rotating goes through all rotations and comes back.
use miau.Prelude.{
  ℕ, zero, suc, ◌+◌, ◌<◌, ◌≤◌, ◌≡◌, refl, sym, ap, ◌∙◌, Option, none, some, [], ◌∷◌, ◌++◌,
  append_assoc, append-nil, Text, arith, length, length-append, take, drop, get_elem?, ltb,
  Bool-cases, ltb→lt, inl, inr, true, false,
}
use miau.Tools.{random_chars, rotate, append_char, randname}

length-random_chars : (rand : ℕ → ℕ) (i n : ℕ) → length (random_chars rand i n) ≡ n
unfolding random_chars
length-random_chars rand i zero = refl
length-random_chars rand i (suc n) = ap suc (length-random_chars rand (i + 1) n)

get_elem?-middle : (s : Text) (c : ℕ) (t : Text) → get_elem? (s ++ c ∷ t) (length s) ≡ some c
get_elem?-middle [] c t = refl
get_elem?-middle (d ∷ s) c t = get_elem?-middle s c t

take-middle : (s t : Text) → take (length s) (s ++ t) ≡ s
take-middle [] t = refl
take-middle (d ∷ s) t = ap (◌∷◌ d) (take-middle s t)

drop-middle : (s : Text) (c : ℕ) (t : Text) → drop (suc (length s)) (s ++ c ∷ t) ≡ t
drop-middle [] c t = refl
drop-middle (d ∷ s) c t = drop-middle s c t

-- The character at index `length s` goes to the front.
rotate-middle :
    (s : Text) (c : ℕ) (t : Text) → rotate (suc (length s)) (s ++ c ∷ t) ≡ some (c ∷ s ++ t)
unfolding rotate
rotate-middle s c t =
    rw (get_elem?-middle s c t, rotate) (rw (take-middle s (c ∷ t), drop-middle s c t))

-- A nick as long as the maximum length has its last character moved to the front.
randname-full :
    (rand : ℕ → ℕ) (s : Text) (c fill : ℕ)
    → randname rand (s ++ c ∷ []) (suc (length s)) fill ≡ some (c ∷ s)
unfolding randname
randname-full rand [] c fill = rotate-middle [] c []
randname-full rand (d ∷ s) c fill =
    let full : ltb (suc (length (s ++ c ∷ []))) (suc (suc (length s))) ≡ false =
      ground (arith, length-append s (c ∷ [])) in
    rw full (rotate-middle (d ∷ s) c [] ∙ ap (λ t. some (c ∷ d ∷ t)) (append-nil s))

-- `k` calls of `randname`, each on the nick that the one before it left.
abbrev pub renames : (ℕ → ℕ) → ℕ → ℕ → ℕ → Text → Option Text
renames rand n fill zero s = some s
renames rand n fill (suc k) s = elim (randname rand s n fill) [
  | none ↦ none
  | some t ↦ renames rand n fill k t
]

-- A text of positive length has a last character.
last_char :
    (k : ℕ) (t : Text)
    → length t ≡ suc k
    → (t' : Text) × (c : ℕ) × (t ≡ t' ++ c ∷ []) × (length t' ≡ k)
last_char k [] e = absurd (omega arith)
last_char zero (c ∷ []) e = ([], c, refl, refl)
last_char (suc k) (c ∷ []) e = absurd (omega arith)
last_char zero (c ∷ d ∷ t) e = absurd (omega arith)
last_char (suc k) (c ∷ d ∷ t) e =
    let (t', x, split, len) = last_char k (d ∷ t) (omega arith) in
    (c ∷ t', x, ap (◌∷◌ c) split, ap suc len)

renames-append :
    (rand : ℕ → ℕ) (fill n k : ℕ) (s t : Text)
    → length t ≡ k
    → length s + k ≡ n
    → renames rand n fill k (s ++ t) ≡ some (t ++ s)
renames-append rand fill n zero s [] e h = ap some (append-nil s)
renames-append rand fill n zero s (c ∷ t) e h = absurd (omega arith)
renames-append rand fill n (suc k) s t e h =
    let (t', c, split, len) = last_char k t e in
    let room : n ≡ suc (length (s ++ t')) = omega (arith, length-append s t') in
    let first : randname rand (s ++ t) n fill ≡ some (c ∷ s ++ t') =
      rw (split, room, ← append_assoc s t' (c ∷ [])) (randname-full rand (s ++ t') c fill) in
    rw (first, renames)
      (renames-append rand fill n k (c ∷ s) t' len (omega arith)
        ∙ ap some (sym (ap (λ u. u ++ s) split ∙ append_assoc t' (c ∷ []) s)))

-- A nick of the maximum length `n` is back after `n` calls: the calls go through its rotations.
pub renames_cycle :
    (rand : ℕ → ℕ) (fill : ℕ) (s : Text) → renames rand (length s) fill (length s) s ≡ some s
renames_cycle rand fill s =
    renames-append rand fill (length s) (length s) [] s refl (omega arith) ∙ ap some (append-nil s)

-- What `randname` makes of a nick: it fits, is no shorter, and one made from nothing is as long as
-- allowed.
abbrev pub Fits : Text → ℕ → Option Text → Type 0
Fits s n none = ⊥
Fits s n (some t) = (length t ≤ n) × (length s ≤ length t)

length-rotate :
    (n : ℕ) (s : Text)
    → length s ≡ suc n
    → (t : Text) × (rotate (suc n) s ≡ some t) × (length t ≡ suc n)
length-rotate n s e =
    let (s', c, split, len) = last_char n s e in
    (
      c ∷ s' ++ [],
      rw (split, ← len) (rotate-middle s' c []),
      omega (arith, length-append {0} s' [], len),
    )

length-append_char :
    (s : Text) (c : ℕ)
    → (length s ≤ length (append_char s c)) × (length (append_char s c) ≤ length s + 1)
unfolding append_char
length-append_char s c = ground (arith, length-append s (c ∷ []))

randname-Fits_short :
    (rand : ℕ → ℕ) (c : ℕ) (s : Text) (n fill : ℕ)
    → ltb (length (c ∷ s)) n ≡ true
    → Fits (c ∷ s) n (randname rand (c ∷ s) n fill)
unfolding randname
randname-Fits_short rand c s n fill e =
    rw e (omega (arith, length-append_char (c ∷ s) fill, ltb→lt (length (c ∷ s)) n e))

randname-Fits_full :
    (rand : ℕ → ℕ) (c : ℕ) (s : Text) (n fill : ℕ)
    → length (c ∷ s) ≡ n
    → Fits (c ∷ s) n (randname rand (c ∷ s) n fill)
unfolding randname
randname-Fits_full rand c s zero fill e = absurd (omega arith)
randname-Fits_full rand c s (suc n) fill e =
    let (t, made, len) = length-rotate n (c ∷ s) e in
    let full : ltb (length (c ∷ s)) (suc n) ≡ false = ground arith in rw (full, made) (omega arith)

-- For a positive maximum length `n` and a nick that fits in it, `randname` stays within the buffer,
-- gives a nick of at most `n` characters, and one no shorter than the old one.
pub randname-Fits :
    (rand : ℕ → ℕ) (s : Text) (n fill : ℕ)
    → 0 < n
    → length s ≤ n
    → Fits s n (randname rand s n fill)
unfolding randname
randname-Fits rand [] n fill pos le = omega (arith, length-random_chars rand 0 n)
randname-Fits rand (c ∷ s) n fill pos le = elim (Bool-cases (ltb (length (c ∷ s)) n)) [
  | inl e ↦ randname-Fits_short rand c s n fill e
  | inr e ↦ randname-Fits_full rand c s n fill (ground arith)
]
