-- ===== src/Tools.antt =====
-- src/tools.c: case conversion, positions of characters, words, nicknames and uptime. The children
-- prove what these functions do. A byte is a number below 256, NULL is `none`, and -1 is `none`.
pub mod Case
pub mod Positions
pub mod Words
pub mod Nick
pub mod Uptime
mod Examples
use miau.Prelude.{
  ℕ, zero, suc, ◌+◌, ◌-◌, ◌/◌, ◌%◌, ◌&&◌, Option, none, some, [], ◌∷◌, ◌++◌, Text, leb, ltb, ◌==◌,
  if◌then◌else◌, length, get_or, get_elem?, take, drop,
}

-- `toupper` and `tolower` of the C library, in the C locale.
unfoldable pub to_upper : ℕ → ℕ
to_upper c = if leb b'a' c && leb c b'z' then c - 32 else c

unfoldable pub to_lower : ℕ → ℕ
to_lower c = if leb b'A' c && leb c b'Z' then c + 32 else c

unfoldable pub upcase : Text → Text
upcase [] = []
upcase (c ∷ s) = to_upper c ∷ upcase s

unfoldable pub lowcase : Text → Text
lowcase [] = []
lowcase (c ∷ s) = to_lower c ∷ lowcase s

-- The loop of `pos` from index `i`, over the rest of the text.
unfoldable pub pos_from : ℕ → Text → ℕ → Option ℕ
pos_from i [] c = none
pos_from i (d ∷ s) c = if d == c then some i else pos_from (i + 1) s c

unfoldable pub pos : Text → ℕ → Option ℕ
unfolding pos_from
pos s c = pos_from 0 s c

-- The loop of `lastpos` with `n` indices left: it begins at the terminator.
unfoldable pub lastpos_below : ℕ → Text → ℕ → Option ℕ
lastpos_below zero s c = none
lastpos_below (suc i) s c = if get_or s i 0 == c then some i else lastpos_below i s c

unfoldable pub lastpos : Option Text → ℕ → Option ℕ
unfolding lastpos_below
lastpos none c = none
lastpos (some s) c = lastpos_below (length s + 1) s c

unfoldable pub nextword : Text → Option Text
unfolding pos
nextword s = elim (pos s b' ') [ none ↦ none | some i ↦ some (drop (suc i) s) ]

unfoldable pub lastword : Text → Text
unfolding lastpos
lastword s = elim (lastpos (some s) b' ') [ none ↦ s | some i ↦ drop (suc i) s ]

-- `n` characters from the `i`th value of `rand()` on.
unfoldable pub random_chars : (ℕ → ℕ) → ℕ → ℕ → Text
random_chars rand i zero = []
random_chars rand i (suc n) = (b'A' + rand i % 56) ∷ random_chars rand (i + 1) n

-- The last of the first `n + 1` characters moves to the front.
unfoldable pub rotate : ℕ → Text → Option Text
rotate zero target = none
rotate (suc n) target = elim (get_elem? target n) [
  | none ↦ none
  | some shift ↦ some (shift ∷ take n target ++ drop (suc n) target)
]

-- `none` is an access out of range: a nick of positive length with a maximum length of 0. A fill
-- character of 0 ends the text where it ended before.
unfoldable pub append_char : Text → ℕ → Text
append_char target c = if c == 0 then target else target ++ c ∷ []

unfoldable pub randname : (ℕ → ℕ) → Text → ℕ → ℕ → Option Text
unfolding random_chars rotate append_char
randname rand [] length' fillchar = some (random_chars rand 0 length')
randname rand (c ∷ s) length' fillchar =
    if ltb (length (c ∷ s)) length'
    then some (append_char (c ∷ s) fillchar)
    else rotate length' (c ∷ s)

-- Days, hours, minutes and seconds.
pub record TimeParts : Type 0 where
  pub days : ℕ
  pub hours : ℕ
  pub minutes : ℕ
  pub seconds : ℕ

unfoldable pub getuptime : ℕ → TimeParts
getuptime now =
    let now₁ = now % 86400 in
    let now₂ = now₁ % 3600 in
    record { days = now / 86400; hours = now₁ / 3600; minutes = now₂ / 60; seconds = now₂ % 60 }
