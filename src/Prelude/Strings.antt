-- ===== src/Prelude/Strings.antt =====
-- Functions of the C library on texts without their terminator: a pointer into a text is the rest
-- of the text from there, NULL is `none`.
use Prim.Native.Nat.{ℕ, suc, ◌-◌, ◌+◌}
use mathlib.Core.Bool.{Bool, true, false, ◌&&◌}
use mathlib.Core.List.{List, [], ◌∷◌, ◌++◌}
use mathlib.Core.Option.{Option, none, some}
use miau.Prelude.Tests.{leb, ◌==◌, if◌then◌else◌}
use miau.Prelude.Lists.{Text, drop}
use miau.Prelude.Int.{ℤ, pos, negsuc}

-- `strchr` for a character that is not the terminator.
abbrev pub strchr : Text → ℕ → Option Text
strchr [] c = none
strchr (d ∷ s) c = if d == c then some (d ∷ s) else strchr s c

abbrev pub starts : Text → Text → Bool
starts s [] = true
starts [] (d ∷ t) = false
starts (c ∷ s) (d ∷ t) = (c == d) && starts s t

-- The index of the first place of a part, from index `i` on.
abbrev pub find_from : ℕ → Text → Text → Option ℕ
find_from i [] part = if starts [] part then some i else none
find_from i (c ∷ s) part = if starts (c ∷ s) part then some i else find_from (suc i) s part

-- `strstr`, with an index for the pointer.
abbrev pub strstr : Text → Text → Option ℕ
strstr s part = find_from 0 s part

-- How many of the characters at the front are `c`, and how many are not.
abbrev pub run_of : ℕ → Text → ℕ
run_of c [] = 0
run_of c (d ∷ s) = if d == c then suc (run_of c s) else 0

abbrev pub run_not : ℕ → Text → ℕ
run_not c [] = 0
run_not c (d ∷ s) = if d == c then 0 else suc (run_not c s)

-- A difference of two times.
abbrev pub minus : ℕ → ℕ → ℤ
minus a b = if leb b a then pos (a - b) else negsuc (b - a - 1)

-- Sequencing of computations that can find nothing.
infixl 5 ◌>>=◌
abbrev pub ◌>>=◌ {ℓ} : {A B : Type ℓ} → Option A → (A → Option B) → Option B
none >>= f = none
some a >>= f = f a

-- The tokens that calls of `strtok` with the delimiter `c` give: the parts that are not empty, `part`
-- the one so far.
abbrev pub token_list : Text → List Text → List Text
token_list [] rest = rest
token_list (d ∷ part) rest = (d ∷ part) ∷ rest

abbrev pub tokens_by : ℕ → Text → Text → List Text
tokens_by c part [] = token_list part []
tokens_by c part (d ∷ s) =
    if d == c then token_list part (tokens_by c [] s) else tokens_by c (part ++ d ∷ []) s

-- Where `strtok` ends the first token of a text: behind the delimiters at its front.
abbrev pub token_end : ℕ → Text → ℕ
token_end c s = let skipped = run_of c s in skipped + run_not c (drop skipped s)

-- The parts of a text between the characters `c`, the empty ones too, `part` the one so far.
abbrev pub fields_by : ℕ → Text → Text → List Text
fields_by c part [] = part ∷ []
fields_by c part (d ∷ s) =
    if d == c then part ∷ fields_by c [] s else fields_by c (part ++ d ∷ []) s
