-- ===== src/Miau/Made.antt =====
-- src/miau.c: the nicks that miau makes up.
use miau.Prelude.{
  ℕ, zero, suc, ◌*◌, ◌≡◌, ◌∙◌, ◌⊎◌, inl, inr, refl, ◌<◌, ◌≤◌, false, Option, none, some, List, [],
  ◌∷◌, Text, arith, Bool-cases, ltb, ◌==◌, if◌then◌else◌, length, take, length-take,
}
use miau.Tools.{randname}
use miau.Tools.Nick.{Fits, randname-Fits}
use miau.Miau.Nick.{
  NickCfg, Nicks, nick_next, nick_gen, advance, named, generate, tried, pick, get_nick,
}
use miau.Miau.Tries.{elem-in, tries}

-- Where nicks are made up: either the list is not done with, or the nick fits its memory.
abbrev pub IsListed : Nicks → Type 0
IsListed st =
    (i : ℕ) × (st.current ≡ some i)
    × (st.next ≡ nick_next)
    × (i < length st.nicks)
    × (st.gen_tries ≡ 0)

abbrev pub IsMade : NickCfg → Nicks → Type 0
IsMade cfg st = (st.current ≡ none) × (st.next ≡ nick_gen) × (length st.nickname ≤ cfg.maxnicklen)

abbrev pub IsReady : NickCfg → Nicks → Type 0
IsReady cfg st = (1 ≤ length st.nicks) × (IsListed st ⊎ IsMade cfg st)

Fits-some :
    (s : Text) (n : ℕ) (r : Option Text) → Fits s n r → (t : Text) × (r ≡ some t) × (length t ≤ n)
Fits-some s n none f = absurd f
Fits-some s n (some t) (le, ge) = (t, refl, le)

named-Fits :
    (cfg : NickCfg) (base : Text)
    → 1 ≤ cfg.maxnicklen
    → length base ≤ cfg.maxnicklen
    → (t : Text) × (named cfg base ≡ some t) × (length t ≤ cfg.maxnicklen)
unfolding named
named-Fits cfg base room le =
    let (t, e, fits) =
      Fits-some base cfg.maxnicklen (randname cfg.rand base cfg.maxnicklen cfg.nickfillchar)
        (randname-Fits cfg.rand base cfg.maxnicklen cfg.nickfillchar room le) in
    let short : ltb cfg.maxnicklen (length base) ≡ false = ground arith in
    (t, rw (short, e) refl, fits)

-- What `generate` begins with.
base_of :
    (cfg : NickCfg) (nick : Text) (nicks : List Text) (st : Nicks)
    → st.nicks ≡ nick ∷ nicks
    → (st.gen_tries ≡ 0) ⊎ (length st.nickname ≤ cfg.maxnicklen)
    → (base : Text) × (length base ≤ cfg.maxnicklen)
      × ((if st.gen_tries == 0
            then (elim st.nicks as (λ _. Option Text) [
              | [] ↦ none
              | n ∷ ns ↦ some (take cfg.maxnicklen n)
            ])
            else some st.nickname)
          ≡ some base)
base_of cfg nick nicks st e h = elim (Bool-cases (st.gen_tries == 0)) [
  | inl f ↦
      (take cfg.maxnicklen nick, ground (arith, length-take cfg.maxnicklen nick), rw (f, e) refl)
  | inr f ↦ (st.nickname, ground arith, rw f refl)
]

generate-fits :
    (cfg : NickCfg) (nick : Text) (nicks : List Text) (st : Nicks)
    → 1 ≤ cfg.maxnicklen
    → st.nicks ≡ nick ∷ nicks
    → (st.gen_tries ≡ 0) ⊎ (length st.nickname ≤ cfg.maxnicklen)
    → (after : Nicks) × (generate cfg st ≡ some after)
      × (after.next ≡ nick_gen)
      × (after.current ≡ st.current)
      × (after.nicks ≡ st.nicks)
      × (length after.nickname ≤ cfg.maxnicklen)
unfolding generate
generate-fits cfg nick nicks st room e h =
    let (base, le, f) = base_of cfg nick nicks st e h in
    elim (Bool-cases (st.gen_tries == cfg.maxnicklen * 2)) [
      | inl g ↦
          let (t, made, fits) = named-Fits cfg [] room (omega arith) in
          (
            record st { next = nick_gen; gen_tries = st.gen_tries; nickname = t },
            rw (f, g, made) refl,
            refl,
            refl,
            refl,
            fits,
          )
      | inr g ↦
          let (t, made, fits) = named-Fits cfg base room le in
          (
            record st { next = nick_gen; gen_tries = suc st.gen_tries; nickname = t },
            rw (f, g, made) refl,
            refl,
            refl,
            refl,
            fits,
          )
    ]

cons_of : (nicks : List Text) → 1 ≤ length nicks → (n : Text) × (ns : List Text) × (nicks ≡ n ∷ ns)
cons_of [] h = absurd (omega arith)
cons_of (n ∷ ns) h = (n, ns, refl)

pick-made :
    (cfg : NickCfg) (current : Option ℕ) (at made : Nicks)
    → (cfg.nickfillchar == 0) ≡ false
    → current ≡ none
    → generate cfg at ≡ some made
    → pick cfg current at ≡ some made
unfolding pick
pick-made cfg current at made fill off e = rw (off, fill) e

get_nick-made :
    (cfg : NickCfg) (st at made : Nicks)
    → (cfg.nickfillchar == 0) ≡ false
    → advance st.next st ≡ some at
    → at.current ≡ none
    → generate cfg at ≡ some made
    → get_nick cfg false st ≡ some (tried made)
unfolding get_nick
get_nick-made cfg st at made fill moved off e =
    rw (moved, pick-made cfg at.current at made fill off e) refl

get_nick-IsReady :
    (cfg : NickCfg) (st : Nicks)
    → 1 ≤ cfg.maxnicklen
    → (cfg.nickfillchar == 0) ≡ false
    → IsReady cfg st
    → (after : Nicks) × (get_nick cfg false st ≡ some after) × IsReady cfg after
unfolding get_nick advance pick
get_nick-IsReady cfg st room fill (full, inl (i, at, next, lt, zero_tries)) =
    elim (Bool-cases (ltb (suc i) (length st.nicks))) [
      | inl e ↦
          let (x, found) = elem-in st.nicks (suc i) (ground arith) in
          (
            tried (record st { current = some (suc i); nickname = x }),
            rw (next, at, e, found) refl,
            (full, inl (suc i, refl, next, ground arith, zero_tries)),
          )
      | inr e ↦
          let (n, ns, split) = cons_of st.nicks full in
          let (made, f, gen, current, nicks, fits) =
            generate-fits cfg n ns (record st { current = none }) room split (inl zero_tries) in
          (
            tried made,
            get_nick-made cfg st (record st { current = none }) made fill (rw (next, at, e) refl)
                refl f,
            (rw nicks full, inr (current, gen, fits)),
          )
    ]
get_nick-IsReady cfg st room fill (full, inr (at, next, short)) =
    let (n, ns, split) = cons_of st.nicks full in
    let (made, f, gen, current, nicks, fits) = generate-fits cfg n ns st room split (inr short) in
    (
      tried made,
      get_nick-made cfg st st made fill (rw (next) refl) at f,
      (rw nicks full, inr (current ∙ at, gen, fits)),
    )

-- Where nicks are made up, any number of tries is no fault, and a nick that was made up fits in the
-- maximum length: from a list of nicks that is not done with, and no try to make one up before.
pub tries-IsReady :
    (cfg : NickCfg) (st : Nicks) (k : ℕ)
    → 1 ≤ cfg.maxnicklen
    → (cfg.nickfillchar == 0) ≡ false
    → IsReady cfg st
    → (after : Nicks) × (tries cfg k st ≡ some after) × IsReady cfg after
unfolding tries
tries-IsReady cfg st zero room fill ready = (st, refl, ready)
tries-IsReady cfg st (suc k) room fill ready =
    let (mid, e, ready') = tries-IsReady cfg st k room fill ready in
    let (after, f, ready'') = get_nick-IsReady cfg mid room fill ready' in
    (after, rw (e, f) refl, ready'')
