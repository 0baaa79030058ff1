-- ===== src/Perm/Faults.antt =====
-- An empty mask makes `is_perm` fault as soon as the host of miau is known.
use miau.Prelude.{
  ℕ, ◌+◌, ◌≤◌, ◌≡◌, ◌≢◌, ◌↔◌, refl, Option, some, none, [], ◌∷◌, Text, codes, if◌then◌else◌, arith,
  length, Option-cases, inl, inr, ◌⊎◌, drop, ==_refl, ==_ne, ℕ_discrete,
}
use miau.Match.{match_replace}
use miau.Match.Replace.{match_replace-faults_iff}
use miau.Perm.{PermType, PermList, Ident, perm_hit, perm_walk, is_perm}

empty_of_short : (s : Text) → length s + 2 ≤ 2 → s ≡ []
empty_of_short [] h = refl
empty_of_short (c ∷ s) h = absurd (omega arith)

perm_hit-faults_iff :
    (host : Text) (name : Option Text) (perm : PermType)
    → (perm_hit (some host) name perm ≡ none) ↔ (perm.name ≡ [])
unfolding perm_hit
perm_hit-faults_iff host name perm = (
  λ e. empty_of_short perm.name ((match_replace-faults_iff name perm.name (codes "@@") host 2).0 e),
  λ e. (match_replace-faults_iff name perm.name (codes "@@") host 2).1 (rw e (omega arith)),
)

perm_hit-unknown : (name : Option Text) (perm : PermType) → perm_hit none name perm ≢ none
unfolding perm_hit match_replace
perm_hit-unknown name perm = ground arith

-- One of the masks is empty.
abbrev pub HasEmpty : PermList → Type 0
HasEmpty [] = ⊥
HasEmpty (p ∷ list) = (p.name ≡ []) ⊎ HasEmpty list

perm_walk-faults_iff :
    (host : Text) (name : Option Text) (list : PermList) (a : ℕ)
    → (perm_walk (some host) name list a ≡ none) ↔ HasEmpty list
unfolding perm_walk
perm_walk-faults_iff host name [] a = ground arith
perm_walk-faults_iff host name (p ∷ list) a = elim (Option-cases (perm_hit (some host) name p)) [
  | inl e ↦ rw (e, perm_walk) (λ h. inl ((perm_hit-faults_iff host name p).0 e), λ h. refl)
  | inr (hit, e) ↦
      let rest = perm_walk-faults_iff host name list (if hit then p.allowed else a) in
      rw (e, perm_walk)
        (
          λ h. inr (rest.0 h),
          elim [
            | inl empty ↦ absurd (ground (arith, (perm_hit-faults_iff host name p).1 empty))
            | inr later ↦ rest.1 later
          ],
        )
]

perm_walk-total : (name : Option Text) (list : PermList) (a : ℕ) → perm_walk none name list a ≢ none
unfolding perm_walk
perm_walk-total name [] a = ground arith
perm_walk-total name (p ∷ list) a = elim (Option-cases (perm_hit none name p)) [
  | inl e ↦ absurd (perm_hit-unknown name p e)
  | inr (hit, e) ↦ rw (e, perm_walk) (perm_walk-total name list (if hit then p.allowed else a))
]

-- `is_perm` faults exactly where the host is known and one of the masks is empty.
pub is_perm-faults_iff :
    (status : Ident) (list : PermList) (name : Option Text)
    → (is_perm status list name ≡ none) ↔ ((status.goodhostname ≢ 0) × HasEmpty list)
unfolding is_perm
is_perm-faults_iff status list name = elim (ℕ_discrete status.goodhostname 0) [
  | yes e ↦
      rw (==_refl status.goodhostname 0 e)
        (λ h. absurd (perm_walk-total name list 0 h), λ h. absurd (h.0 e))
  | no ne ↦
      let walk = perm_walk-faults_iff (drop status.goodhostname status.idhostname) name list 0 in
      rw (==_ne status.goodhostname 0 ne) (λ h. (ne, walk.0 h), λ h. walk.1 h.1)
]
