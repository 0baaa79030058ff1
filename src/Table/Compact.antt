-- ===== src/Table/Compact.antt =====
-- `table_compact` drops the holes at the end and nothing else.
use miau.Prelude.{
  ℕ, zero, suc, ◌≤◌, ◌≡◌, refl, ap, Option, none, some, List, [], ◌∷◌, ◌++◌, arith, length, take,
  if◌then◌else◌, ◌==◌, ==_ne,
}
use miau.Table.{used_below, table_compact}

module _ {A : Type 0} where
  -- The entries that are there, in the order of the table.
  unfoldable pub live : List (Option A) → List A
  live [] = []
  live (none ∷ s) = live s
  live (some a ∷ s) = a ∷ live s

  abbrev pub AllNull : List (Option A) → Type 0
  AllNull [] = Unit
  AllNull (none ∷ s) = AllNull s
  AllNull (some a ∷ s) = ⊥

  -- The table without the holes at its end.
  unfoldable pub strip : List (Option A) → List (Option A)
  strip [] = []
  strip (some a ∷ s) = some a ∷ strip s
  strip (none ∷ s) = elim (strip s) [ [] ↦ [] | x ∷ t ↦ none ∷ x ∷ t ]

  used_below-cons_some :
      (a : A) (s : List (Option A)) (n : ℕ) → used_below (some a ∷ s) (suc n) ≡ suc (used_below s n)
  unfolding used_below
  used_below-cons_some a s zero = refl
  used_below-cons_some a s (suc n) = ground (arith, used_below-cons_some a s n)

  used_below-cons_none :
      (s : List (Option A)) (n : ℕ)
      → used_below (none ∷ s) (suc n) ≡ (if used_below s n == 0 then 0 else suc (used_below s n))
  unfolding used_below
  used_below-cons_none s zero = refl
  used_below-cons_none s (suc n) = ground (arith, used_below-cons_none s n)

  used_below-le : (s : List (Option A)) (n : ℕ) → used_below s n ≤ n
  unfolding used_below
  used_below-le s zero = omega arith
  used_below-le s (suc n) = ground (arith, used_below-le s n)

  strip-none :
      (s : List (Option A)) (u : ℕ)
      → u ≤ length s
      → take u s ≡ strip s
      → take (if u == 0 then 0 else suc u) (none ∷ s) ≡ strip (none ∷ s)
  unfolding strip
  strip-none s zero le e = rw (← e, strip)
  strip-none [] (suc u) le e = absurd (omega arith)
  strip-none (x ∷ s) (suc u) le e = rw (==_ne (suc u) 0 (omega arith)) (rw (← e, strip))

  take-used : (s : List (Option A)) → take (used_below s (length s)) s ≡ strip s
  unfolding strip used_below
  take-used [] = refl
  take-used (some a ∷ s) =
      rw (used_below-cons_some a s (length s)) (ap (◌∷◌ (some a)) (take-used s))
  take-used (none ∷ s) =
      rw (used_below-cons_none s (length s))
        (strip-none s (used_below s (length s)) (used_below-le s (length s)) (take-used s))

  pub table_compact-strip : (s : List (Option A)) → table_compact s ≡ strip s
  unfolding table_compact
  table_compact-strip s = take-used s

  pub live-strip : (s : List (Option A)) → live (strip s) ≡ live s
  unfolding live strip
  live-strip [] = refl
  live-strip (some a ∷ s) = ap (◌∷◌ a) (live-strip s)
  live-strip (none ∷ s) = ground (arith, live-strip s)

  pub length-strip-le : (s : List (Option A)) → length (strip s) ≤ length s
  unfolding strip
  length-strip-le [] = omega arith
  length-strip-le (some a ∷ s) = omega (arith, length-strip-le s)
  length-strip-le (none ∷ s) = ground (arith, length-strip-le s)

  pub live-append : (s t : List (Option A)) → live (s ++ t) ≡ live s ++ live t
  unfolding live
  live-append [] t = refl
  live-append (some a ∷ s) t = ap (◌∷◌ a) (live-append s t)
  live-append (none ∷ s) t = live-append s t

  -- Behind a hole nothing is left, so the hole goes as well.
  pub strip-hole_end : (s t : List (Option A)) → strip t ≡ [] → strip (s ++ none ∷ t) ≡ strip s
  unfolding strip
  strip-hole_end [] t e = rw (e, strip)
  strip-hole_end (some a ∷ s) t e = ap (◌∷◌ (some a)) (strip-hole_end s t e)
  strip-hole_end (none ∷ s) t e = rw (strip-hole_end s t e, strip)

  -- Behind a hole something is left, so the hole stays.
  pub strip-hole_inside :
      (s t : List (Option A)) (x : Option A) (u : List (Option A))
      → strip t ≡ x ∷ u
      → strip (s ++ none ∷ t) ≡ s ++ none ∷ x ∷ u
  unfolding strip
  strip-hole_inside [] t x u e = rw (e, strip)
  strip-hole_inside (some a ∷ s) t x u e = ap (◌∷◌ (some a)) (strip-hole_inside s t x u e)
  strip-hole_inside (none ∷ []) t x u e = rw (strip-hole_inside [] t x u e, strip)
  strip-hole_inside (none ∷ y ∷ s) t x u e = rw (strip-hole_inside (y ∷ s) t x u e, strip)
