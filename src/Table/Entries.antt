-- ===== src/Table/Entries.antt =====
-- src/table.c: what holds of every entry after entries are added, removed and changed.
use mathlib.Core.Path.{subst}
use miau.Prelude.{
  ℕ, zero, suc, ◌≡◌, ◌∙◌, ◌≤◌, refl, sym, ap, inl, inr, true, Option, none, some, List, [], ◌∷◌,
  ◌++◌, append-nil, All, arith, Bool-cases, Option-cases, ltb, get_elem?, set, length,
}
use miau.Table.{is_null, last_null, table_add_item, table_rem_item, new_index}
use miau.Table.Compact.{live, live-strip, table_compact-strip, live-append}
use miau.Table.Sweep.{filter_map, set-at}

module _ {A : Type 0} where
  live-add :
      (P : A → Type 0) (t : List (Option A)) (i : ℕ) (a : A)
      → P a
      → All P (live t)
      → All P (live (set t i (some a)))
  unfolding live
  live-add P [] i a h hs = hs
  live-add P (none ∷ t) zero a h hs = (h, hs)
  live-add P (some b ∷ t) zero a h (hb, hs) = (h, hs)
  live-add P (none ∷ t) (suc i) a h hs = live-add P t i a h hs
  live-add P (some b ∷ t) (suc i) a h (hb, hs) = (hb, live-add P t i a h hs)

  All-append : (P : A → Type 0) (xs : List A) (a : A) → All P xs → P a → All P (xs ++ a ∷ [])
  All-append P [] a hs h = (h, tt)
  All-append P (x ∷ xs) a (hx, hs) h = (hx, All-append P xs a hs h)

  pub table_add_item-All :
      (P : A → Type 0) (t : List (Option A)) (a : A)
      → P a
      → All P (live t)
      → All P (live (table_add_item t a))
  unfolding table_add_item live
  table_add_item-All P t a h hs = elim (Option-cases (last_null t (length t))) [
    | inl e ↦ rw (e, table_add_item, live-append t (some a ∷ [])) (All-append P (live t) a hs h)
    | inr (i, e) ↦ rw (e, table_add_item) (live-add P t i a h hs)
  ]

  -- What is kept of an entry that may be removed.
  abbrev pub KeptBy : (A → Type 0) → Option A → Type 0
  KeptBy P none = Unit
  KeptBy P (some a) = P a

  pub filter_map-All :
      (P : A → Type 0) (action : A → Option A) (l : List A)
      → ((a : A) → P a → KeptBy P (action a))
      → All P l
      → All P (filter_map action l)
  unfolding filter_map
  filter_map-All P action [] k hs = tt
  filter_map-All P action (a ∷ l) k (h, hs) = elim (Option-cases (action a)) [
    | inl e ↦ rw (e, filter_map) (filter_map-All P action l k hs)
    | inr (a', e) ↦
        let here : KeptBy P (some a') = subst (KeptBy P) e (k a h) in
        rw (e, filter_map, All) (here, filter_map-All P action l k hs)
  ]

  null_value : (x : Option (Option A)) → is_null x ≡ true → x ≡ some none
  null_value none e = absurd (ground arith)
  null_value (some none) e = refl
  null_value (some (some a)) e = absurd (ground arith)

  -- The index that the loop finds is that of a hole.
  pub last_null_sound :
      (s : List (Option A)) (n i : ℕ) → last_null s n ≡ some i → is_null (get_elem? s i) ≡ true
  unfolding last_null
  last_null_sound s zero i e = absurd (ground arith)
  last_null_sound s (suc n) i e = elim (Bool-cases (is_null (get_elem? s n))) [
    | inl here ↦ rw (sym (some_inj (rw here at e))) here
    | inr on ↦ last_null_sound s n i (rw on at e)
  ]
    where
      some_inj : {k : ℕ} → some n ≡ some k → n ≡ k
      some_inj p = ground arith

  live-hole :
      (t : List (Option A)) (i : ℕ) (a : A)
      → get_elem? t i ≡ some none
      → live (set (set t i (some a)) i none) ≡ live t
  unfolding live
  live-hole [] i a e = refl
  live-hole (none ∷ t) zero a e = refl
  live-hole (some b ∷ t) zero a e = absurd (ground arith)
  live-hole (none ∷ t) (suc i) a e = live-hole t i a e
  live-hole (some b ∷ t) (suc i) a e = ap (◌∷◌ b) (live-hole t i a e)

  set_out : (t : List (Option A)) (i : ℕ) → length t ≤ i → t ≡ set t i none
  set_out [] i le = refl
  set_out (x ∷ t) zero le = absurd (omega arith)
  set_out (x ∷ t) (suc i) le = ap (◌∷◌ x) (set_out t i (omega arith))

  rem-live : (t : List (Option A)) (i : ℕ) → live (table_rem_item t i) ≡ live (set t i none)
  unfolding table_rem_item
  rem-live t i = elim (Bool-cases (ltb i (length t))) [
    | inl e ↦ rw (e, table_compact-strip (set t i none)) (live-strip (set t i none))
    | inr e ↦ rw (e, table_compact-strip t) (live-strip t ∙ ap live (set_out t i (ground arith)))
  ]

  -- An entry that is added and removed again leaves the others as they were.
  pub added_and_removed :
      (t : List (Option A)) (a : A)
      → live (table_rem_item (table_add_item t a) (new_index t)) ≡ live t
  unfolding table_add_item live new_index
  added_and_removed t a = elim (Option-cases (last_null t (length t))) [
    | inl e ↦
        rw (e, new_index, table_add_item)
          (rem-live (t ++ some a ∷ []) (length t)
            ∙ cc (set-at t (some a) none [], live-append t (none ∷ []), append-nil (live t)))
    | inr (i, e) ↦
        rw (e, new_index, table_add_item)
          (rem-live (set t i (some a)) i
            ∙ live-hole t i a (null_value (get_elem? t i) (last_null_sound t (length t) i e)))
  ]
