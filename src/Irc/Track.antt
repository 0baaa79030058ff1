-- ===== src/Irc/Track.antt =====
-- src/irc.c: the table of open sockets, from which `select` gets the highest one. A free place is 0.
use mathlib.Core.Path.{subst}
use miau.Prelude.{
  ℕ, ◌≤◌, ◌≡◌, ◌≢◌, ◌↔◌, refl, ◌⊎◌, inl, inr, Bool, true, false, ◌||◌, Option, none, some, List, [],
  ◌∷◌, arith, ◌==◌, ltb, if◌then◌else◌, All, Option-cases, Bool-cases, not, ◌&&◌, ℕ_discrete,
  ==_refl, ==_ne,
}

pub record Sockets : Type 0 where
  pub track_socks : List ℕ
  pub highest_socket : ℕ

-- The loop of `track_highest`, with the highest socket so far.
unfoldable pub highest_from : ℕ → List ℕ → ℕ
highest_from h [] = h
highest_from h (s ∷ socks) = highest_from (if ltb h s then s else h) socks

unfoldable pub track_highest : List ℕ → Sockets
unfolding highest_from
track_highest socks = record { track_socks = socks; highest_socket = highest_from 0 socks }

-- `s` in the first free place. `none` is a read behind the table: the loop reads the entry before it
-- tests the index.
unfoldable pub place : ℕ → List ℕ → Option (List ℕ)
place s [] = none
place s (t ∷ socks) =
    let later = place s socks in
    if t == 0 then some (s ∷ socks) else elim later [ none ↦ none | some rest ↦ some (t ∷ rest) ]

unfoldable pub track_add : Sockets → ℕ → Option Sockets
unfolding place track_highest
track_add t s = elim (place s t.track_socks) [
  | none ↦ none
  | some socks ↦ some (track_highest socks)
]

unfoldable pub clear : ℕ → List ℕ → List ℕ
clear s [] = []
clear s (t ∷ socks) = (if t == s then 0 else t) ∷ clear s socks

unfoldable pub track_del : Sockets → ℕ → Sockets
unfolding clear track_highest
track_del t s = track_highest (clear s t.track_socks)

abbrev pub tracked : ℕ → List ℕ → Bool
tracked s [] = false
tracked s (t ∷ socks) = t == s || tracked s socks

-- The highest socket is tracked, if any is, and no tracked one is above it.
abbrev pub IsHighest : Sockets → Type 0
IsHighest t =
    All (λ s. s ≤ t.highest_socket) t.track_socks
    × ((t.highest_socket ≡ 0) ⊎ (tracked t.highest_socket t.track_socks ≡ true))

highest_from-le :
    (h : ℕ) (socks : List ℕ)
    → (h ≤ highest_from h socks) × All (λ s. s ≤ highest_from h socks) socks
unfolding highest_from
highest_from-le h [] = (omega arith, tt)
highest_from-le h (s ∷ socks) =
    let rest = highest_from-le (if ltb h s then s else h) socks in
    (ground (arith, rest.0), (ground (arith, rest.0), rest.1))

highest_from-tracked :
    (h : ℕ) (socks : List ℕ)
    → (highest_from h socks ≡ h) ⊎ (tracked (highest_from h socks) socks ≡ true)
unfolding highest_from
highest_from-tracked h [] = inl refl
highest_from-tracked h (s ∷ socks) =
    ground (arith, highest_from-tracked (if ltb h s then s else h) socks)

track_highest-IsHighest : (socks : List ℕ) → IsHighest (track_highest socks)
unfolding track_highest
track_highest-IsHighest socks = ((highest_from-le 0 socks).1, highest_from-tracked 0 socks)

place-tracked :
    (s : ℕ) (socks : List ℕ) (u : ℕ) {after : List ℕ}
    → u ≢ 0
    → place s socks ≡ some after
    → tracked u after ≡ (s == u || tracked u socks)
unfolding place
place-tracked s [] u ne e = absurd (ground arith)
place-tracked s (t ∷ socks) u ne e = elim (Bool-cases (t == 0)) [
  | inl free ↦ ground arith
  | inr taken ↦ elim (Option-cases (place s socks)) [
    | inl full ↦ absurd (ground arith)
    | inr (rest, found) ↦ ground (arith, place-tracked s socks u ne found)
  ]
]

some_injective : {a b : Sockets} → some a ≡ some b → a ≡ b
some_injective e = cc

place-none_iff : (s : ℕ) (socks : List ℕ) → (place s socks ≡ none) ↔ All (λ u. u ≢ 0) socks
unfolding place
place-none_iff s [] = (λ h. tt, λ h. refl)
place-none_iff s (t ∷ socks) = elim (ℕ_discrete t 0) [
  | yes e ↦ rw (==_refl t 0 e) (λ h. absurd (ground arith), λ h. absurd (h.0 e))
  | no ne ↦ rw (==_ne t 0 ne) (elim (Option-cases (place s socks)) [
    | inl full ↦ rw (full) (λ h. (ne, (place-none_iff s socks).0 full), λ h. refl)
    | inr (rest, found) ↦
        rw (found)
          (λ h. absurd (ground arith), λ h. absurd (ground (arith, (place-none_iff s socks).1 h.1)))
  ])
]

-- `track_add` tracks the new socket beside those tracked before, and the highest one is up to date.
pub track_add_lem :
    (t : Sockets) (s : ℕ) {t' : Sockets}
    → track_add t s ≡ some t'
    → IsHighest t'
      × ((u : ℕ) → u ≢ 0 → tracked u t'.track_socks ≡ (s == u || tracked u t.track_socks))
unfolding track_add track_highest
track_add_lem t s {t'} e = elim (Option-cases (place s t.track_socks)) [
  | inl full ↦ absurd (ground arith)
  | inr (socks, found) ↦
      let same : track_highest socks ≡ t' = some_injective (rw (found, track_add) at e) in
      subst
        (λ (r : Sockets).
          IsHighest r
          × ((u : ℕ) → u ≢ 0 → tracked u r.track_socks ≡ (s == u || tracked u t.track_socks)))
        same (track_highest-IsHighest socks, λ u ne. place-tracked s t.track_socks u ne found)
]

-- It reads behind the table exactly where no place is free.
pub track_add-faults_iff :
    (t : Sockets) (s : ℕ) → (track_add t s ≡ none) ↔ All (λ u. u ≢ 0) t.track_socks
unfolding track_add
track_add-faults_iff t s = elim (Option-cases (place s t.track_socks)) [
  | inl full ↦ rw (full, track_add) (λ h. (place-none_iff s t.track_socks).0 full, λ h. refl)
  | inr (socks, found) ↦
      rw (found, track_add)
        (
          λ h. absurd (ground arith),
          λ h. absurd (ground (arith, (place-none_iff s t.track_socks).1 h)),
        )
]

tracked-clear :
    (s : ℕ) (socks : List ℕ) (u : ℕ)
    → u ≢ 0
    → tracked u (clear s socks) ≡ (not (s == u) && tracked u socks)
unfolding clear
tracked-clear s [] u ne = ground arith
tracked-clear s (t ∷ socks) u ne = ground (arith, tracked-clear s socks u ne)

-- After `track_del` the socket is not tracked, the others are as before, and the highest one is up to
-- date.
pub track_del_lem :
    (t : Sockets) (s : ℕ)
    → IsHighest (track_del t s)
      × ((u : ℕ)
          → u ≢ 0
          → tracked u (track_del t s).track_socks ≡ (not (s == u) && tracked u t.track_socks))
unfolding track_del track_highest
track_del_lem t s =
    (track_highest-IsHighest (clear s t.track_socks), λ u ne. tracked-clear s t.track_socks u ne)
