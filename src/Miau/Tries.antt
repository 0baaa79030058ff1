-- ===== src/Miau/Tries.antt =====
-- src/miau.c: which nicks are tried, one after the other.
use miau.Prelude.{
  ℕ, zero, suc, ◌+◌, ◌*◌, ◌≡◌, inl, inr, refl, ◌<◌, false, Option, some, List, [], ◌∷◌, Text, arith,
  Bool-cases, ltb, if◌then◌else◌, length, get_elem?,
}
use miau.Prelude.Strings.{◌>>=◌}
use miau.Miau.Nick.{NickCfg, Nicks, nick_next, advance, tried, pick, get_nick}

pub elem-in : (xs : List Text) (i : ℕ) → i < length xs → (x : Text) × (get_elem? xs i ≡ some x)
elem-in [] i h = absurd (omega arith)
elem-in (x ∷ xs) zero h = (x, refl)
elem-in (x ∷ xs) (suc i) h = elem-in xs i (omega arith)

-- The nick that was tried last is the one at index `i` of the list.
abbrev pub IsAt : List Text → ℕ → Nicks → Type 0
IsAt nicks i st =
    (st.nicks ≡ nicks)
    × (st.current ≡ some i)
    × (st.next ≡ nick_next)
    × (i < length nicks)
    × (get_elem? nicks i ≡ some st.nickname)

-- The index behind another one, and the first one behind the last.
abbrev pub behind : ℕ → ℕ → ℕ
behind n i = if ltb (suc i) n then suc i else 0

get_nick-IsAt :
    (cfg : NickCfg) (nicks : List Text) (i : ℕ) (st : Nicks)
    → cfg.nickfillchar ≡ 0
    → IsAt nicks i st
    → (after : Nicks) × (get_nick cfg false st ≡ some after)
      × IsAt nicks (behind (length nicks) i) after
unfolding get_nick advance pick
get_nick-IsAt cfg nicks i st fill (same, at, next, lt, nick) =
    elim (Bool-cases (ltb (suc i) (length nicks))) [
      | inl e ↦
          let (x, found) = elem-in nicks (suc i) (ground arith) in
          (
            tried (record st { current = some (suc i); nickname = x }),
            rw (next, at, same, e, found) refl,
            rw e (same, refl, next, ground arith, found),
          )
      | inr e ↦
          let (x, found) = elem-in nicks 0 (omega arith) in
          (
            tried (record st { current = some 0; nickname = x }),
            rw (next, at, same, e, fill, found) refl,
            rw e (same, refl, next, omega arith, found),
          )
    ]

-- `k` tries.
unfoldable pub tries : NickCfg → ℕ → Nicks → Option Nicks
unfolding get_nick
tries cfg zero st = some st
tries cfg (suc k) st = tries cfg k st >>= get_nick cfg false

-- Where nicks are not made up: the tries go through the list of nicks in its order, and round again
-- after the last one. They begin behind the first nick, which was sent with the connection.
pub tries-round :
    (cfg : NickCfg) (nicks : List Text) (st : Nicks) (k : ℕ)
    → cfg.nickfillchar ≡ 0
    → IsAt nicks 0 st
    → (after : Nicks) × (rounds i : ℕ) × (tries cfg k st ≡ some after)
      × IsAt nicks i after
      × (k ≡ rounds * length nicks + i)
unfolding tries
tries-round cfg nicks st zero fill first = (st, 0, 0, refl, first, omega arith)
tries-round cfg nicks st (suc k) fill first =
    let (mid, rounds, i, e, at, sum) = tries-round cfg nicks st k fill first in
    let (after, f, at') = get_nick-IsAt cfg nicks i mid fill at in
    elim (Bool-cases (ltb (suc i) (length nicks))) [
      | inl g ↦ (after, rounds, suc i, rw (e, f) refl, rw g at at', omega (arith, sum))
      | inr g ↦ (after, suc rounds, 0, rw (e, f) refl, rw g at at', grind (arith))
    ]
