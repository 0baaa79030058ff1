-- ===== src/Dcc/Timeout.antt =====
-- src/dcc.c: which connections the timer leaves.
use miau.Prelude.{
  ℕ, ◌≡◌, refl, inl, inr, true, false, List, [], ◌∷◌, All, arith, Bool-cases, if◌then◌else◌,
}
use miau.Table.Compact.{live}
use miau.Table.Sweep.{filter_map, sweep_all}
use miau.Dcc.{Bounce, is_late, unless_late, dcc_timer}
use miau.Dcc.Checked.{IsPaired}
use miau.Dcc.Run.{DccEvent, dcc_run}
use miau.Dcc.Kept.{dcc_run-AllPaired}

-- The connections that are up.
unfoldable pub up : List Bounce → List Bounce
up [] = []
up (b ∷ bs) = let rest = up bs in if b.connected then b ∷ rest else rest

up-late : (now : ℕ) (b : Bounce) → IsPaired b → is_late now b ≡ true → b.connected ≡ false
unfolding IsPaired is_late
up-late now b (h, p, q, r) e = elim (Bool-cases b.connected) [
  | inl on ↦ absurd (ground (arith, h, e))
  | inr off ↦ off
]

up-filter :
    (now : ℕ) (bs : List Bounce) → All IsPaired bs → up (filter_map (unless_late now) bs) ≡ up bs
unfolding up filter_map
up-filter now [] h = refl
up-filter now (b ∷ bs) (h, hs) = elim (Bool-cases (is_late now b)) [
  | inl e ↦ rw (e, filter_map, up, up-late now b h e) (up-filter now bs hs)
  | inr e ↦ rw (e, filter_map, up, up-filter now bs hs) refl
]

none_late :
    (now : ℕ) (bs : List Bounce)
    → All (λ b. is_late now b ≡ false) (filter_map (unless_late now) bs)
unfolding filter_map
none_late now [] = tt
none_late now (b ∷ bs) = elim (Bool-cases (is_late now b)) [
  | inl e ↦ rw (e, filter_map, All) (none_late now bs)
  | inr e ↦ rw (e, filter_map, All) (e, none_late now bs)
]

-- Whatever happened before, the timer leaves every connection that is up, in its order, and no other one
-- that nobody has come for within 80 seconds.
pub dcc_timer-up :
    (es : List DccEvent) (now : ℕ)
    → let dccs = dcc_run es [] in
      (up (live (dcc_timer now dccs)) ≡ up (live dccs))
      × All (λ b. is_late now b ≡ false) (live (dcc_timer now dccs))
unfolding dcc_timer
dcc_timer-up es now =
    let dccs = dcc_run es [] in
    let left = sweep_all (unless_late now) dccs in
    (
      rw left (up-filter now (live dccs) (dcc_run-AllPaired es)),
      rw left (none_late now (live dccs)),
    )
