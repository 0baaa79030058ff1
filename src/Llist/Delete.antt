-- ===== src/Llist/Delete.antt =====
-- Deleting any node of a list, and finding a content on it.
use miau.Prelude.{
  ℕ, zero, suc, ◌<◌, ◌≡◌, ◌≢◌, inl, inr, refl, sym, ap, ◌∙◌, true, false, ◌||◌, Option, none, some,
  [], ◌∷◌, ◌++◌, arith, Bool-cases, ◌==◌, ==_ne, ==_sound, if◌then◌else◌, length,
}
use miau.Llist.{
  LlistNode, LlistList, Memory, write, unlink_prev, unlink_next, llist_delete, freed, find_node,
  llist_find,
}
use miau.Llist.Seg.{
  Cells, has, first_or, last_or, node, Seg, Distinct, Holds, ends, SameOutside, write_at, write_off,
  Seg-write, Seg-append, Seg-split, Seg-last, Seg-first, has-append, first_or-append,
  last_or-append, false-true,
}
use miau.Llist.Grow.{set_next_lem, set_prev_lem, head_nonzero, last_or-nonzero, last_or-apart}

Seg-frame :
    (h g : Memory) (p : ℕ) (xs : Cells) (s : ℕ)
    → ((b : ℕ) → has b xs ≡ true → g b ≡ h b)
    → Seg h p xs s
    → Seg g p xs s
unfolding Seg
Seg-frame h g p [] s same seg = tt
Seg-frame h g p ((a, d) ∷ xs) s same (e, seg) =
    (same a (ground arith) ∙ e, Seg-frame h g a xs s (λ b i. same b (ground arith)) seg)

-- The nodes before a node, and those behind it.
before_node :
    (h : Memory) (xs : Cells) (a v d tail : ℕ)
    → Seg h 0 xs a
    → Distinct xs
    → (g : Memory) × (unlink_prev
          (node (last_or 0 xs) v d)
          (record { head = first_or a xs; tail = tail })
          h
        ≡ some (record { head = first_or v xs; tail = tail }, g))
      × Seg g 0 xs v
      × SameOutside xs h g
unfolding unlink_prev Seg
before_node h [] a v d tail seg dis = (h, refl, tt, λ b o. refl)
before_node h ((b, c) ∷ xs) a v d tail seg dis =
    let (m, at, seg') = Seg-last h 0 b c xs a v seg dis in
    (
      write h (last_or b xs) (some (node m.prev v m.content)),
      rw (==_ne (last_or b xs) 0 (last_or-nonzero b c xs dis), set_next_lem (last_or b xs) v h m at)
          refl,
      seg',
      λ q o. write_off h (last_or b xs) q _ (λ e. last_or-apart q b c xs o (sym e)),
    )

behind_node :
    (h : Memory) (ys : Cells) (a u d head : ℕ)
    → Seg h a ys 0
    → Distinct ys
    → (g : Memory) × (unlink_next
          (node u (first_or 0 ys) d)
          (record { head = head; tail = last_or a ys })
          h
        ≡ some (record { head = head; tail = last_or u ys }, g))
      × Seg g u ys 0
      × SameOutside ys h g
unfolding unlink_next Seg
behind_node h [] a u d head seg dis = (h, refl, tt, λ b o. refl)
behind_node h ((b, c) ∷ ys) a u d head (e, seg) dis = (
  write h b (some (node u (first_or 0 ys) c)),
  rw (==_ne b 0 (head_nonzero b c ys dis), set_prev_lem b u h _ e) refl,
  Seg-first h a b c ys 0 u (e, seg) dis,
  λ q o. write_off h b q _ (λ eq. ground arith),
)

-- What it takes that the nodes around a node are apart.
abbrev pub Apart : Cells → ℕ → Cells → Type 0
Apart xs a ys =
    Distinct xs
    × Distinct ys
    × Distinct (xs ++ ys)
    × (has a xs ≡ false)
    × (has a ys ≡ false)
    × ((b : ℕ) → has b ys ≡ true → has b xs ≡ false)

not_behind :
    (b : ℕ) (xs : Cells) (a d : ℕ) (ys : Cells)
    → (has b xs || has b ((a, d) ∷ ys)) ≡ false
    → has b ys ≡ false
not_behind b xs a d ys h = ground arith

split-Apart : (xs : Cells) (a d : ℕ) (ys : Cells) → Distinct (xs ++ (a, d) ∷ ys) → Apart xs a ys
unfolding Distinct
split-Apart [] a d ys (nz, free, dis) = (tt, dis, dis, refl, free, λ b i. refl)
split-Apart ((b, c) ∷ xs) a d ys (nz, free, dis) =
    let (left, right, both, out, out', apart) = split-Apart xs a d ys dis in
    let none_there = sym (has-append b xs ((a, d) ∷ ys)) ∙ free in
    (
      (nz, ground arith, left),
      right,
      (nz, ground (arith, has-append b xs ys), both),
      ground (arith),
      out',
      λ e i. elim (Bool-cases (e == b)) [
        | inl q ↦ absurd (
            false-true (
              sym (not_behind b xs a d ys none_there)
              ∙ ap (λ z. has z ys) (sym (==_sound e b q))
              ∙ i))
        | inr q ↦ rw q (apart e i)
      ],
    )

uncons :
    (h : Memory) (p a d : ℕ) (ys : Cells)
    → Seg h p ((a, d) ∷ ys) 0
    → (h a ≡ some (node p (first_or 0 ys) d)) × Seg h a ys 0
unfolding Seg
uncons h p a d ys seg = seg

flip_apart :
    (b : ℕ) (xs ys : Cells)
    → (has b ys ≡ true → has b xs ≡ false)
    → has b xs ≡ true
    → has b ys ≡ false
flip_apart b xs ys apart i = elim (Bool-cases (has b ys)) [
  | inl j ↦ absurd (false-true (sym (apart j) ∙ i))
  | inr j ↦ j
]

outside :
    (b : ℕ) (xs : Cells) (a d : ℕ) (ys : Cells)
    → has b (xs ++ (a, d) ∷ ys) ≡ false
    → (has b xs ≡ false) × (b ≢ a) × (has b ys ≡ false)
outside b xs a d ys o =
    let o' = sym (has-append b xs ((a, d) ∷ ys)) ∙ o in
    (ground arith, λ e. ground arith, ground arith)

ends_around :
    (xs : Cells) (a d : ℕ) (ys : Cells)
    → ends (xs ++ (a, d) ∷ ys) ≡ record { head = first_or a xs; tail = last_or a ys }
ends_around xs a d ys =
    rw (first_or-append 0 xs ((a, d) ∷ ys), last_or-append 0 xs ((a, d) ∷ ys)) refl

ends_without :
    (xs ys : Cells)
    → ends (xs ++ ys)
      ≡ record { head = first_or (first_or 0 ys) xs; tail = last_or (last_or 0 xs) ys }
ends_without xs ys = rw (first_or-append 0 xs ys, last_or-append 0 xs ys) refl

delete_steps :
    (h h₁ h₂ : Memory) (a : ℕ) (n m : LlistNode) (l l₁ l₂ : LlistList)
    → h a ≡ some n
    → unlink_prev n l h ≡ some (l₁, h₁)
    → h₁ a ≡ some m
    → unlink_next m l₁ h₁ ≡ some (l₂, h₂)
    → llist_delete a l h ≡ some (freed a (l₂, h₂))
unfolding llist_delete
delete_steps h h₁ h₂ a n m l l₁ l₂ at e₁ at₁ e₂ = rw (at, e₁, at₁, e₂, llist_delete) refl

-- The list of the other nodes, and the deleted node is not allocated any more.
abbrev pub Deletes : ℕ → Option (LlistList × Memory) → Memory → Cells → Cells → Type 0
Deletes a result h xs touched =
    (list : LlistList) × (g : Memory) × (result ≡ some (list, g))
    × Holds g list xs
    × SameOutside touched h g
    × (g a ≡ none)

delete_ends :
    (h : Memory) (xs : Cells) (a d : ℕ) (ys : Cells)
    → Seg h 0 (xs ++ (a, d) ∷ ys) 0
    → Distinct (xs ++ (a, d) ∷ ys)
    → Deletes a (llist_delete a (ends (xs ++ (a, d) ∷ ys)) h) h (xs ++ ys) (xs ++ (a, d) ∷ ys)
unfolding llist_delete Holds
delete_ends h xs a d ys seg dis =
    let (left, right, both, out, out', apart) = split-Apart xs a d ys dis in
    let (before, here) = Seg-split h 0 xs ((a, d) ∷ ys) 0 seg in
    let (at, behind) = uncons h (last_or 0 xs) a d ys here in
    let (h₁, e₁, seg₁, same₁) = before_node h xs a (first_or 0 ys) d (last_or a ys) before left in
    let (h₂, e₂, seg₂, same₂) =
      behind_node h₁ ys a (last_or 0 xs) d (first_or (first_or 0 ys) xs)
        (Seg-frame h h₁ a ys 0 (λ b i. same₁ b (apart b i)) behind) right in
    (
      ends (xs ++ ys),
      write h₂ a none,
      ap (λ l. llist_delete a l h) (ends_around xs a d ys)
          ∙ delete_steps h h₁ h₂ a _ _ _ _ _ at e₁ (same₁ a out ∙ at) e₂
          ∙ ap (λ l. some (freed a (l, h₂))) (sym (ends_without xs ys)),
      (
        refl,
        Seg-append (write h₂ a none) 0 xs ys 0
            (Seg-write h₂ a none 0 xs (first_or 0 ys) out (
              Seg-frame h₁ h₂ 0 xs (first_or 0 ys) (λ b i. same₂ b (flip_apart b xs ys (apart b) i))
                seg₁))
            (Seg-write h₂ a none (last_or 0 xs) ys 0 out' seg₂),
        both,
      ),
      λ b o.
          let (o₁, ne, o₂) = outside b xs a d ys o in
          write_off h₂ a b none ne ∙ same₂ b o₂ ∙ same₁ b o₁,
      write_at h₂ a none,
    )

-- Whichever node of a list is deleted, also the first, the last or the only one: the operation reads
-- and writes allocated nodes alone, gives the list of the other nodes, linked both ways, frees the
-- node, which is not allocated afterwards, and leaves the memory outside of the list as it is.
pub llist_delete-Holds :
    (h : Memory) (list : LlistList) (xs : Cells) (a d : ℕ) (ys : Cells)
    → Holds h list (xs ++ (a, d) ∷ ys)
    → Deletes a (llist_delete a list h) h (xs ++ ys) (xs ++ (a, d) ∷ ys)
unfolding Holds
llist_delete-Holds h list xs a d ys (same, seg, dis) = rw same (delete_ends h xs a d ys seg dis)

-- The address of the first node with a content, or NULL.
abbrev pub first_with : ℕ → Cells → ℕ
first_with content [] = 0
first_with content ((a, d) ∷ xs) = if d == content then a else first_with content xs

find-Seg :
    (h : Memory) (p : ℕ) (xs : Cells) (fuel content : ℕ)
    → Seg h p xs 0
    → Distinct xs
    → length xs < fuel
    → find_node fuel (first_or 0 xs) content h ≡ some (first_with content xs)
unfolding find_node Seg Distinct
find-Seg h p xs zero content seg dis lt = absurd (omega arith)
find-Seg h p [] (suc fuel) content seg dis lt = refl
find-Seg h p ((a, d) ∷ xs) (suc fuel) content (e, seg) (nz, free, dis) lt =
    elim (Bool-cases (d == content)) [
      | inl f ↦ rw (==_ne a 0 nz, e, f) refl
      | inr f ↦ rw (==_ne a 0 nz, e, f) (find-Seg h a xs fuel content seg dis (omega arith))
    ]

-- The search ends, with as many rounds as the list has nodes and one more, reads allocated nodes alone,
-- and gives the first node with the content, or NULL where there is none.
pub llist_find-first_with :
    (h : Memory) (list : LlistList) (xs : Cells) (fuel content : ℕ)
    → Holds h list xs
    → length xs < fuel
    → llist_find fuel content list h ≡ some (first_with content xs)
unfolding Holds llist_find
llist_find-first_with h list xs fuel content (same, seg, dis) lt =
    rw same (find-Seg h 0 xs fuel content seg dis lt)
