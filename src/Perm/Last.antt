-- ===== src/Perm/Last.antt =====
-- The last mask that matches decides.
use miau.Prelude.{
  ℕ, ◌≡◌, refl, Bool, true, false, Option, some, none, [], ◌∷◌, ◌++◌, Text, if◌then◌else◌, All,
  Option-cases, inl, inr, ◌∙◌,
}
use miau.Perm.{PermType, PermList, Ident, known_host, perm_hit, perm_walk, is_perm}

-- One round of the walk.
pub perm_walk-cons :
    (host name : Option Text) (p : PermType) (list : PermList) (a : ℕ) (hit : Bool)
    → perm_hit host name p ≡ some hit
    → perm_walk host name (p ∷ list) a ≡ perm_walk host name list (if hit then p.allowed else a)
unfolding perm_walk
perm_walk-cons host name p list a hit e = rw (e, perm_walk)

-- The walk over two lists, one behind the other.
perm_walk-append :
    (host name : Option Text) (front back : PermList) (a : ℕ)
    → perm_walk host name (front ++ back) a
      ≡ elim (perm_walk host name front a) [ none ↦ none | some b ↦ perm_walk host name back b ]
unfolding perm_walk
perm_walk-append host name [] back a = refl
perm_walk-append host name (p ∷ front) back a = elim (Option-cases (perm_hit host name p)) [
  | inl e ↦ rw (e, perm_walk)
  | inr (hit, e) ↦
      rw (e, perm_walk) (perm_walk-append host name front back (if hit then p.allowed else a))
]

-- Masks that do not match leave the answer alone.
perm_walk-misses :
    (host name : Option Text) (list : PermList) (a : ℕ)
    → All (λ p. perm_hit host name p ≡ some false) list
    → perm_walk host name list a ≡ some a
unfolding perm_walk
perm_walk-misses host name [] a h = refl
perm_walk-misses host name (p ∷ list) a h =
    perm_walk-cons host name p list a false h.0 ∙ perm_walk-misses host name list a h.1

-- The mask that `is_perm` finds last decides, whatever the masks in front of it say, if they are
-- tested without a fault.
pub is_perm-last :
    (status : Ident) (name : Option Text) (front : PermList) (perm : PermType) (back : PermList)
    {b : ℕ}
    → is_perm status front name ≡ some b
    → perm_hit (known_host status) name perm ≡ some true
    → All (λ p. perm_hit (known_host status) name p ≡ some false) back
    → is_perm status (front ++ perm ∷ back) name ≡ some perm.allowed
unfolding is_perm
is_perm-last status name front perm back {b} tested hits misses =
    rw
      (
        perm_walk-append (known_host status) name front (perm ∷ back) 0,
        tested,
        perm_walk-cons (known_host status) name perm back b true hits,
      )
      (perm_walk-misses (known_host status) name back perm.allowed misses)

-- Where no mask matches, nothing is permitted.
pub is_perm-none :
    (status : Ident) (name : Option Text) (list : PermList)
    → All (λ p. perm_hit (known_host status) name p ≡ some false) list
    → is_perm status list name ≡ some 0
unfolding is_perm
is_perm-none status name list misses = perm_walk-misses (known_host status) name list 0 misses
