-- ===== src/Table/Sweep.antt =====
-- src/ignore.c, src/dcc.c: loops over a table of src/table.c while entries are removed from it. Such a
-- loop acts on the entries that are there, each once, whatever the holes are.
use miau.Prelude.{
  ℕ, zero, suc, ◌≤◌, ◌≡◌, refl, sym, ap, ◌∙◌, inl, inr, true, Option, none, some, List, [], ◌∷◌,
  ◌++◌, append-nil, append_assoc, arith, length, length-append, get_elem?, set, Option-cases, ltb,
}
use miau.Table.{table_rem_item}
use miau.Table.Compact.{
  live, strip, table_compact-strip, live-strip, live-append, length-strip-le, strip-hole_end,
  strip-hole_inside,
}

module _ {A : Type 0} where
  -- The shape of the loops over a table that change its entries and remove some, from index `i` on: an
  -- entry is removed, or written anew. `fuel` is the number of entries at the start.
  unfoldable pub sweep : (A → Option A) → ℕ → ℕ → List (Option A) → List (Option A)
  sweep action zero i ignores = ignores
  sweep action (suc fuel) i ignores =
      let skip = sweep action fuel (suc i) ignores in
      elim (get_elem? ignores i) [
        | none ↦ ignores
        | some none ↦ skip
        | some (some e) ↦ elim (action e) [
          | none ↦ sweep action fuel (suc i) (table_rem_item ignores i)
          | some e' ↦ sweep action fuel (suc i) (set ignores i (some e'))
        ]
      ]

  -- What `action` leaves of a list of entries.
  unfoldable pub filter_map : (A → Option A) → List A → List A
  filter_map action [] = []
  filter_map action (e ∷ l) = elim (action e) [
    | none ↦ filter_map action l
    | some e' ↦ e' ∷ filter_map action l
  ]

  get_elem?-at :
      (front : List (Option A)) (x : Option A) (back : List (Option A))
      → get_elem? (front ++ x ∷ back) (length front) ≡ some x
  get_elem?-at [] x back = refl
  get_elem?-at (y ∷ front) x back = get_elem?-at front x back

  get_elem?-end : (front : List (Option A)) (i : ℕ) → length front ≤ i → get_elem? front i ≡ none
  get_elem?-end [] i le = refl
  get_elem?-end (y ∷ front) zero le = absurd (omega arith)
  get_elem?-end (y ∷ front) (suc i) le = get_elem?-end front i (omega arith)

  pub set-at :
      (front : List (Option A)) (x y : Option A) (back : List (Option A))
      → set (front ++ x ∷ back) (length front) y ≡ front ++ y ∷ back
  set-at [] x y back = refl
  set-at (z ∷ front) x y back = ap (◌∷◌ z) (set-at front x y back)

  rem-at :
      (front : List (Option A)) (x : Option A) (back : List (Option A))
      → table_rem_item (front ++ x ∷ back) (length front) ≡ strip (front ++ none ∷ back)
  unfolding table_rem_item
  rem-at front x back =
      let inside : ltb (length front) (length (front ++ x ∷ back)) ≡ true =
        ground (arith, length-append front (x ∷ back)) in
      rw (inside, set-at front x none back) (table_compact-strip (front ++ none ∷ back))

  -- What the loop owes from index `length front` on.
  abbrev Does : (A → Option A) → ℕ → List (Option A) → List (Option A) → Type 0
  Does action fuel front back =
      live (sweep action fuel (length front) (front ++ back))
      ≡ live front ++ filter_map action (live back)

  -- The loop steps over an entry that is done with.
  step_over :
      (action : A → Option A) (fuel : ℕ) (front : List (Option A)) (x : Option A)
      (back : List (Option A))
      → Does action fuel (front ++ x ∷ []) back
      → live (sweep action fuel (suc (length front)) (front ++ x ∷ back))
        ≡ live (front ++ x ∷ []) ++ filter_map action (live back)
  step_over action fuel front x back h =
      let place : suc (length front) ≡ length (front ++ x ∷ []) =
        omega (arith, length-append front (x ∷ [])) in
      rw (place, sym (append_assoc front (x ∷ []) back)) h

  -- Past the end the loop stops.
  sweep-end :
      (action : A → Option A) (fuel i : ℕ) (front : List (Option A))
      → length front ≤ i
      → sweep action fuel i front ≡ front
  unfolding sweep
  sweep-end action zero i front le = refl
  sweep-end action (suc fuel) i front le = rw (get_elem?-end front i le, sweep)

  removed :
      (action : A → Option A) (fuel : ℕ) (front back rest : List (Option A))
      → strip back ≡ rest
      → Does action fuel (front ++ none ∷ []) rest
      → live (sweep action fuel (suc (length front)) (strip (front ++ none ∷ back)))
        ≡ live front ++ filter_map action (live back)
  unfolding filter_map live
  removed action fuel front back [] e h =
      let nothing : live back ≡ [] = sym (live-strip back) ∙ ap live e in
      rw (strip-hole_end front back e) (
        rw
          (
            sweep-end action fuel (suc (length front)) (strip front)
                (omega (arith, length-strip-le front)),
            nothing,
          )
          (live-strip front ∙ sym (append-nil (live front))))
  removed action fuel front back (x ∷ u) e h =
      let same : live back ≡ live (x ∷ u) = sym (live-strip back) ∙ ap live e in
      rw (strip-hole_inside front back x u e) (
        step_over action fuel front none (x ∷ u) h
        ∙ cc (same, live-append front (none ∷ []), append-nil (live front)))

  sweep-live :
      (action : A → Option A) (fuel : ℕ) (front back : List (Option A))
      → length back ≤ fuel
      → Does action fuel front back
  unfolding sweep filter_map live
  sweep-live action zero front [] le = rw (append-nil front) (sym (append-nil (live front)))
  sweep-live action zero front (x ∷ back) le = absurd (omega arith)
  sweep-live action (suc fuel) front [] le = rw (append-nil front) (
      ap live (sweep-end action (suc fuel) (length front) front (omega arith))
      ∙ sym (append-nil (live front)))
  sweep-live action (suc fuel) front (none ∷ back) le =
      rw (get_elem?-at front none back, sweep)
        (step_over action fuel front none back
            (sweep-live action fuel (front ++ none ∷ []) back (omega arith))
          ∙ cc (live-append front (none ∷ []), append-nil (live front)))
  sweep-live action (suc fuel) front (some e ∷ back) le = elim (Option-cases (action e)) [
    | inl gone ↦
        rw (get_elem?-at front (some e) back, sweep)
          (rw (gone, rem-at front (some e) back)
            (removed action fuel front back (strip back) refl (
              sweep-live action fuel (front ++ none ∷ []) (strip back)
                (omega (arith, length-strip-le back)))))
    | inr (e', new) ↦
        rw (get_elem?-at front (some e) back, sweep)
          (rw (new, set-at front (some e) (some e') back)
            (step_over action fuel front (some e') back
                (sweep-live action fuel (front ++ some e' ∷ []) back (omega arith))
              ∙ rw (live-append front (some e' ∷ []))
                  (append_assoc (live front) (e' ∷ []) (filter_map action (live back)))))
  ]

  -- The whole loop, from index 0 with the number of entries for fuel.
  pub sweep_all :
      (action : A → Option A) (ignores : List (Option A))
      → live (sweep action (length ignores) 0 ignores) ≡ filter_map action (live ignores)
  unfolding live
  sweep_all action ignores = sweep-live action (length ignores) [] ignores (omega arith)
