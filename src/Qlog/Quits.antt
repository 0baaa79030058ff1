-- ===== src/Qlog/Quits.antt =====
-- What the lines look like that `is_my_quit` takes for a quit of the client's own.
use miau.Prelude.{
  ℕ, zero, suc, ◌+◌, ◌<◌, ◌≤◌, ◌≡◌, ◌≢◌, inl, inr, refl, sym, ap, ◌∙◌, Bool, true, false, Option,
  none, some, [], ◌∷◌, ◌++◌, Text, codes, arith, Bool-cases, Option-cases, ltb, ◌==◌, if◌then◌else◌,
  length, length-append, length-take, get_or, take, drop, zero-add, ◌⊎◌, ==_sound, take-append-drop,
}
use miau.Prelude.Strings.{starts, find_from, strstr}
use miau.Tools.{pos}
use miau.Tools.Positions.{IsFirst, pos-IsFirst}
use miau.Common.{strncmp_zero}
use miau.Common.Laws.{strncmp_zero-prefix}
use miau.Qlog.Replay.{quit_place, is_my_quit}

none-some : (k : ℕ) → none ≢ some k
none-some k e = ground arith

starts-append : (s part : Text) → starts s part ≡ true → s ≡ part ++ drop (length part) s
starts-append s [] h = refl
starts-append [] (d ∷ t) h = ground arith
starts-append (c ∷ s) (d ∷ t) h = ground (arith, starts-append s t)

if_some :
    (b : Bool) (x : ℕ) (o : Option ℕ) (k : ℕ)
    → (if b then some x else o) ≡ some k
    → ((b ≡ true) × (x ≡ k)) ⊎ ((b ≡ false) × (o ≡ some k))
if_some true x o k h = inl (refl, cc)
if_some false x o k h = inr (refl, h)

false-true : false ≢ true
false-true e = ground arith

-- A test that a place is not behind another.
in_front : (end q : ℕ) → (if ltb end q then false else true) ≡ true → q ≤ end
in_front end q h = ground arith

find_from-starts :
    (i : ℕ) (s part : Text) (k : ℕ)
    → find_from i s part ≡ some k
    → (m : ℕ) × (k ≡ i + m) × (starts (drop m s) part ≡ true)
find_from-starts i [] part k h = elim (if_some (starts [] part) i none k h) [
  | inl (e, same) ↦ (0, omega arith, e)
  | inr (e, f) ↦ absurd (none-some k f)
]
find_from-starts i (c ∷ s) part k h = elim (if_some (starts (c ∷ s) part) i _ k h) [
  | inl (e, same) ↦ (0, omega arith, e)
  | inr (e, f) ↦ let (m, eq, st) = find_from-starts (suc i) s part k f in (suc m, omega arith, st)
]

strstr-append :
    (s part : Text) (k : ℕ)
    → strstr s part ≡ some k
    → s ≡ take k s ++ (part ++ drop (length part) (drop k s))
strstr-append s part k h =
    let (m, e, st) = find_from-starts 0 s part k h in
    sym (take-append-drop k s)
    ∙ ap (λ t. take k s ++ t) (starts-append (drop k s) part (rw (e, zero-add) st))

-- No character of a text is a colon.
abbrev pub NoColon : Text → Type 0
NoColon s = (j : ℕ) → j < length s → get_or s j 0 ≢ b':'

get_or-take : (s : Text) (n j : ℕ) → j < length (take n s) → get_or (take n s) j 0 ≡ get_or s j 0
get_or-take s zero j h = elim h [ ]
get_or-take [] (suc n) j h = elim h [ ]
get_or-take (c ∷ s) (suc n) zero h = refl
get_or-take (c ∷ s) (suc n) (suc j) h = get_or-take s n j (omega arith)

before_first : (s : Text) (end n : ℕ) → IsFirst s b':' (some end) → n ≤ end → NoColon (take n s)
before_first s end n (lt, at, earlier) le =
    λ j h e. earlier j (omega (arith, length-take n s)) (sym (get_or-take s n j h) ∙ e)

early :
    (c : ℕ) (msg : Text) (end q : ℕ)
    → IsFirst msg b':' (some end)
    → q ≤ suc end
    → NoColon (drop 1 (take q (c ∷ msg)))
early c msg end zero first le = λ j h. elim h [ ]
early c msg end (suc q) first le = before_first msg end q first (omega arith)

-- The part of the line before `QUIT :`, its first character left aside, has no colon.
quit_place_lem :
    (c : ℕ) (msg : Text)
    → quit_place (c ∷ msg) ≡ true
    → (before rest : Text) × (c ∷ msg ≡ before ++ (codes "QUIT :" ++ rest))
      × NoColon (drop 1 before)
unfolding quit_place
quit_place_lem c msg h = elim (Option-cases (strstr (c ∷ msg) (codes "QUIT :"))) [
  | inl e ↦ absurd (false-true (rw (e, quit_place) at h))
  | inr (q, e) ↦ elim (Option-cases (pos msg b':')) [
    | inl f ↦ absurd (false-true (rw (e, f, quit_place) at h))
    | inr (end, f) ↦ (
      take q (c ∷ msg),
      drop 6 (drop q (c ∷ msg)),
      strstr-append (c ∷ msg) (codes "QUIT :") q e,
      early c msg end q (rw f at (pos-IsFirst msg b':'))
          (in_front (suc end) q (rw (e, f, quit_place) at h)),
    )
  ]
]

take_all : (n : ℕ) (s : Text) → length s ≤ n → take n s ≡ s
take_all zero [] h = refl
take_all zero (c ∷ s) h = absurd (omega arith)
take_all (suc n) [] h = refl
take_all (suc n) (c ∷ s) h = ap (λ t. c ∷ t) (take_all n s (omega arith))

-- What a line that is taken for a quit begins with, and what it has before a second colon.
abbrev pub QuitLine : Text → Text → Type 0
QuitLine nickname msg =
    ((tail : Text) × (msg ≡ b':' ∷ (nickname ++ b'!' ∷ []) ++ tail))
    × ((before rest : Text) × (msg ≡ before ++ (codes "QUIT :" ++ rest)) × NoColon (drop 1 before))

-- Where the nick has 62 characters at most: a line that is taken for the client's own quit begins with
-- a colon, the nick and `!`, and has `QUIT :` with no colon before it but the first character.
pub is_my_quit_lem :
    (nickname msg : Text)
    → length nickname ≤ 62
    → is_my_quit nickname msg ≡ true
    → QuitLine nickname msg
unfolding is_my_quit
is_my_quit_lem nickname [] short h = absurd (false-true h)
is_my_quit_lem nickname (c ∷ msg) short h =
    let full = nickname ++ b'!' ∷ [] in
    let all = take_all 63 full (omega (arith, length-append nickname (b'!' ∷ []))) in
    elim (Bool-cases (c == b':')) [
      | inr e ↦ absurd (false-true (rw e at h))
      | inl e ↦ elim (Bool-cases (strncmp_zero msg full (length full))) [
        | inr f ↦ absurd (false-true (rw (e, all, f) at h))
        | inl f ↦ (
          (
            drop (length full) msg,
            rw (==_sound c b':' e) (ap (λ t. b':' ∷ t) (strncmp_zero-prefix msg full f)),
          ),
          quit_place_lem c msg (rw (e, all, f) at h),
        )
      ]
    ]
