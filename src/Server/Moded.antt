-- ===== src/Server/Moded.antt =====
-- What `parse_modes` makes of changes as servers send them, and of those that are about others.
use miau.Prelude.{
  ℕ, ◌≡◌, ◌≢◌, ◌⊎◌, inl, inr, refl, sym, ap, ◌∙◌, Bool, true, false, ◌||◌, Option, none, some, List,
  [], ◌∷◌, ◌++◌, Text, All, arith, Bool-cases, ◌==◌, if◌then◌else◌,
}
use miau.Prelude.Int.{ℤ}
use miau.Prelude.Strings.{tokens_by}
use miau.Common.{same_nocase}
use miau.Server.Modes.{Moded, Step, is_sign, nick_mode, one_mode, mode_loop, outcome, parse_modes}

-- A sign with the letters that follow it, one at least.
pub record Group : Type 0 where
  pub sign : ℕ
  pub letter : ℕ
  pub letters : Text

unfoldable pub render : List Group → Text
render [] = []
render (g ∷ groups) = g.sign ∷ g.letter ∷ (g.letters ++ render groups)

abbrev pub Letters : Text → Type 0
Letters s = All (λ c. is_sign c ≡ false) s

abbrev pub IsGroup : Group → Type 0
IsGroup g = (is_sign g.sign ≡ true) × Letters g.letters

-- Each letter in turn, with the sign of its group.
unfoldable pub apply_letters : Text → ℕ → Text → Step → Step
apply_letters nickname sign [] st = st
apply_letters nickname sign (c ∷ s) st = apply_letters nickname sign s (one_mode nickname sign c st)

unfoldable pub apply_groups : Text → List Group → Step → Step
unfolding apply_letters
apply_groups nickname [] st = st
apply_groups nickname (g ∷ groups) st =
    apply_groups nickname groups (apply_letters nickname g.sign (g.letter ∷ g.letters) st)

loop-signed :
    (nickname : Text) (m c d : ℕ) (rest : Text) (st : Step)
    → is_sign c ≡ true
    → mode_loop nickname m (c ∷ d ∷ rest) st ≡ mode_loop nickname c rest (one_mode nickname c d st)
unfolding mode_loop
loop-signed nickname m c d rest st e = rw e refl

loop-plain :
    (nickname : Text) (m c : ℕ) (rest : Text) (st : Step)
    → is_sign c ≡ false
    → mode_loop nickname m (c ∷ rest) st ≡ mode_loop nickname m rest (one_mode nickname m c st)
unfolding mode_loop
loop-plain nickname m c [] st e = rw e refl
loop-plain nickname m c (d ∷ rest) st e = rw e refl

loop-Letters :
    (nickname : Text) (m : ℕ) (s rest : Text) (st : Step)
    → Letters s
    → mode_loop nickname m (s ++ rest) st
      ≡ mode_loop nickname m rest (apply_letters nickname m s st)
unfolding apply_letters
loop-Letters nickname m [] rest st h = refl
loop-Letters nickname m (c ∷ s) rest st (p, h) =
    loop-plain nickname m c (s ++ rest) st p
    ∙ loop-Letters nickname m s rest (one_mode nickname m c st) h

loop-groups :
    (nickname : Text) (m : ℕ) (groups : List Group) (st : Step)
    → All IsGroup groups
    → mode_loop nickname m (render groups) st ≡ some (apply_groups nickname groups st)
unfolding render apply_groups mode_loop
loop-groups nickname m [] st h = refl
loop-groups nickname m (g ∷ groups) st ((s, letters), h) =
    loop-signed nickname m g.sign g.letter (g.letters ++ render groups) st s
    ∙ loop-Letters nickname g.sign g.letters (render groups) (one_mode nickname g.sign g.letter st)
        letters
    ∙ loop-groups nickname g.sign groups (apply_letters nickname g.sign (g.letter ∷ g.letters) st) h

abbrev pub after : Step → Moded
after (params, chan) = chan

-- Where the first word of a change is made of signs, each with one letter or more behind it: reading it
-- is no fault, and each letter is applied in order with the sign of its group, taking the parameters in
-- order.
pub parse_modes-apply_groups :
    (nickname original : Text) (chan : Moded) (groups : List Group) (params : List Text)
    → tokens_by b' ' [] original ≡ render groups ∷ params
    → All IsGroup groups
    → parse_modes nickname original chan
      ≡ some (after (apply_groups nickname groups (params, chan)))
unfolding parse_modes
parse_modes-apply_groups nickname original chan groups params e h =
    rw (e, loop-groups nickname b'+' groups (params, chan) h, parse_modes) refl

-- No parameter is the nick.
abbrev pub Others : Text → List Text → Type 0
Others nickname params = All (λ p. same_nocase nickname p ≡ false) params

-- A step that keeps what is known of being an operator.
abbrev pub Keeps : Text → ℤ → Step → Type 0
Keeps nickname oper (params, chan) = Others nickname params × (chan.oper ≡ oper)

nick_mode-oper :
    (nickname : Text) (m c : ℕ) (param : Text) (chan : Moded)
    → same_nocase nickname param ≡ false
    → (nick_mode nickname m c param chan).oper ≡ chan.oper
unfolding nick_mode
nick_mode-oper nickname m c param chan e = elim (Bool-cases (m == b'-')) [
  | inl minus ↦ rw (e, minus, nick_mode) refl
  | inr plus ↦ rw (e, plus, nick_mode) refl
]

Keeps-if :
    (nickname : Text) (oper : ℤ) (b : Bool) (x y : Step)
    → Keeps nickname oper x
    → Keeps nickname oper y
    → Keeps nickname oper (if b then x else y)
Keeps-if nickname oper true x y hx hy = hx
Keeps-if nickname oper false x y hx hy = hy

key-oper :
    (m : ℕ) (p : Text) (chan : Moded)
    → (if m == b'+' then record chan { key = p } else chan).oper ≡ chan.oper
key-oper m p chan = elim (Bool-cases (m == b'+')) [ inl e ↦ rw e refl | inr e ↦ rw e refl ]

one_mode-Keeps :
    (nickname : Text) (m c : ℕ) (oper : ℤ) (params : List Text) (chan : Moded)
    → Others nickname params
    → chan.oper ≡ oper
    → Keeps nickname oper (one_mode nickname m c (params, chan))
unfolding one_mode
one_mode-Keeps nickname m c oper [] chan h e = (h, e)
one_mode-Keeps nickname m c oper (p ∷ params) chan (o, h) e =
    Keeps-if nickname oper (c == b'o' || c == b'v') _ _
      (h, nick_mode-oper nickname m c p chan o ∙ e)
      (Keeps-if nickname oper (c == b'k') _ _ (h, key-oper m p chan ∙ e)
        (Keeps-if nickname oper (c == b'l') _ _
          (Keeps-if nickname oper (m == b'+') _ _ (h, e) ((o, h), e))
          (Keeps-if nickname oper (c == b'b' || c == b'e' || c == b'I') _ _ (h, e) ((o, h), e))))

-- What a loop gives keeps what is known, if it is no fault.
abbrev pub Keeps? : Text → ℤ → Option Step → Type 0
Keeps? nickname oper none = Unit
Keeps? nickname oper (some st) = Keeps nickname oper st

Keeps?-if :
    (nickname : Text) (oper : ℤ) (b : Bool) (x y : Option Step)
    → Keeps? nickname oper x
    → Keeps? nickname oper y
    → Keeps? nickname oper (if b then x else y)
Keeps?-if nickname oper true x y hx hy = hx
Keeps?-if nickname oper false x y hx hy = hy

one_Keeps :
    (nickname : Text) (m c : ℕ) (oper : ℤ) (st : Step)
    → Keeps nickname oper st
    → Keeps nickname oper (one_mode nickname m c st)
one_Keeps nickname m c oper (params, chan) (h, e) = one_mode-Keeps nickname m c oper params chan h e

loop-Keeps :
    (nickname : Text) (m : ℕ) (s : Text) (oper : ℤ) (st : Step)
    → Keeps nickname oper st
    → Keeps? nickname oper (mode_loop nickname m s st)
unfolding mode_loop
loop-Keeps nickname m [] oper st h = h
loop-Keeps nickname m (c ∷ []) oper st h =
    Keeps?-if nickname oper (is_sign c) none _ tt (one_Keeps nickname m c oper st h)
loop-Keeps nickname m (c ∷ d ∷ rest) oper st h =
    Keeps?-if nickname oper (is_sign c) _ _
      (loop-Keeps nickname c rest oper _ (one_Keeps nickname c d oper st h))
      (loop-Keeps nickname m (d ∷ rest) oper _ (one_Keeps nickname m c oper st h))

none-some : (m : Moded) → none ≢ some m
none-some m e = ground arith

List-cases : (ws : List Text) → (ws ≡ []) ⊎ ((w : Text) × (rest : List Text) × (ws ≡ w ∷ rest))
List-cases [] = inl refl
List-cases (w ∷ rest) = inr (w, rest, refl)

abbrev pub all_but_first : List Text → List Text
all_but_first [] = []
all_but_first (w ∷ ws) = ws

outcome-oper :
    (nickname : Text) (oper : ℤ) (o : Option Step) (result : Moded)
    → Keeps? nickname oper o
    → outcome o ≡ some result
    → result.oper ≡ oper
outcome-oper nickname oper none result k e = absurd (ground arith)
outcome-oper nickname oper (some (left, chan)) result (others, k) e = ap or_oper (sym e) ∙ k
  where
    or_oper : Option Moded → ℤ
    or_oper none = oper
    or_oper (some m) = m.oper

-- Where no parameter of a change is the client's own nick, whether miau is an operator of the channel
-- stays as it was known.
pub parse_modes-oper :
    (nickname original : Text) (chan : Moded) (result : Moded)
    → Others nickname (all_but_first (tokens_by b' ' [] original))
    → parse_modes nickname original chan ≡ some result
    → result.oper ≡ chan.oper
unfolding parse_modes
parse_modes-oper nickname original chan result others e =
    elim (List-cases (tokens_by b' ' [] original)) [
      | inl none_there ↦ absurd (none-some result (rw (none_there, parse_modes) at e))
      | inr (word, params, f) ↦
          outcome-oper nickname chan.oper (mode_loop nickname b'+' word (params, chan)) result
            (loop-Keeps nickname b'+' word chan.oper (params, chan) (rw f at others, refl))
            (rw (f, parse_modes) at e)
    ]
