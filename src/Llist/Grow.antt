-- ===== src/Llist/Grow.antt =====
-- Adding a node at either end of a list.
use miau.Prelude.{ℕ, ◌≡◌, ◌≢◌, refl, sym, ◌∙◌, false, Option, some, [], ◌∷◌, ◌++◌, arith, ==_ne}
use miau.Llist.{
  LlistNode, LlistList, Memory, write, set_next, set_prev, llist_add, link_head, llist_add_tail,
  link_tail,
}
use miau.Llist.Seg.{
  Cells, has, first_or, last_or, node, Seg, Distinct, Holds, ends, SameOutside, write_at, write_off,
  Seg-write, Seg-append, Seg-last, has-append, last_or-append,
}

pub set_next_lem :
    (p v : ℕ) (h : Memory) (n : LlistNode)
    → h p ≡ some n
    → set_next p v h ≡ some (write h p (some (node n.prev v n.content)))
unfolding set_next
set_next_lem p v h n e = rw e refl

pub set_prev_lem :
    (p v : ℕ) (h : Memory) (n : LlistNode)
    → h p ≡ some n
    → set_prev p v h ≡ some (write h p (some (node v n.next n.content)))
unfolding set_prev
set_prev_lem p v h n e = rw e refl

-- The memory once both links of a node are written, the next one first.
abbrev pub linked : Memory → ℕ → ℕ → ℕ → LlistNode → Memory
linked h p u v n = write (write h p (some (node n.prev v n.content))) p (some (node u v n.content))

set_both :
    (h : Memory) (p u v : ℕ) (n : LlistNode)
    → h p ≡ some n
    → set_prev p u (write h p (some (node n.prev v n.content))) ≡ some (linked h p u v n)
set_both h p u v n e = set_prev_lem p u _ (node n.prev v n.content) (write_at h p _)

Seg-linked :
    (h : Memory) (p u v : ℕ) (n : LlistNode) (q : ℕ) (xs : Cells) (s : ℕ)
    → has p xs ≡ false
    → Seg h q xs s
    → Seg (linked h p u v n) q xs s
Seg-linked h p u v n q xs s out seg = Seg-write _ p _ q xs s out (Seg-write h p _ q xs s out seg)

linked_off : (h : Memory) (p q u v : ℕ) (n : LlistNode) → q ≢ p → linked h p u v n q ≡ h q
linked_off h p q u v n ne =
    write_off (write h p (some (node n.prev v n.content))) p q (some (node u v n.content)) ne
    ∙ write_off h p q (some (node n.prev v n.content)) ne

has_head : (p a d : ℕ) (xs : Cells) → has p ((a, d) ∷ xs) ≡ false → a ≢ p
has_head p a d xs h e = ground arith

has_tail : (p a d : ℕ) (xs : Cells) → has p ((a, d) ∷ xs) ≡ false → has p xs ≡ false
has_tail p a d xs h = ground arith

-- What an operation is to give: the list of these nodes, and the rest of the memory as it was.
abbrev pub Gives : Option (LlistList × Memory) → Memory → Cells → Cells → Type 0
Gives result h xs touched =
    (list : LlistList) × (g : Memory) × (result ≡ some (list, g))
    × Holds g list xs
    × SameOutside touched h g

add_ends :
    (h : Memory) (xs : Cells) (p : ℕ) (n : LlistNode)
    → Seg h 0 xs 0
    → Distinct xs
    → p ≢ 0
    → has p xs ≡ false
    → h p ≡ some n
    → Gives (llist_add p (ends xs) h) h ((p, n.content) ∷ xs) ((p, n.content) ∷ xs)
unfolding llist_add link_head Holds Seg Distinct
add_ends h [] p n seg dis ne out e = (
  ends ((p, n.content) ∷ []),
  linked h p 0 0 n,
  rw (set_next_lem p 0 h n e, set_both h p 0 0 n e) refl,
  (refl, (write_at (write h p _) p _, tt), (ne, refl, tt)),
  λ b o. ground arith,
)
add_ends h ((a, d) ∷ xs) p n (at, seg) (nz, free, dis) ne out e =
    let apart = has_head p a d xs out in
    let h₂ = linked h p 0 a n in
    let at₂ = linked_off h p a 0 a n apart ∙ at in
    (
      ends ((p, n.content) ∷ (a, d) ∷ xs),
      write h₂ a (some (node p (first_or 0 xs) d)),
      rw (set_next_lem p a h n e, set_both h p 0 a n e, ==_ne a 0 nz, set_prev_lem a p h₂ _ at₂)
          refl,
      (
        refl,
        (
          write_off h₂ a p _ (λ q. apart (sym q)) ∙ write_at (write h p _) p _,
          (
            write_at h₂ a _,
            Seg-write h₂ a _ a xs 0 free (Seg-linked h p 0 a n a xs 0 (has_tail p a d xs out) seg),
          ),
        ),
        (ne, out, (nz, free, dis)),
      ),
      λ b o. ground arith,
    )

-- A list gets a node that is allocated and not on it at its front: the operation reads and writes
-- allocated nodes alone, gives the list with the node in front, linked both ways, and leaves the rest
-- of the memory as it is.
pub llist_add-Holds :
    (h : Memory) (list : LlistList) (xs : Cells) (p : ℕ) (n : LlistNode)
    → Holds h list xs
    → p ≢ 0
    → has p xs ≡ false
    → h p ≡ some n
    → Gives (llist_add p list h) h ((p, n.content) ∷ xs) ((p, n.content) ∷ xs)
unfolding Holds
llist_add-Holds h list xs p n (same, seg, dis) ne out e =
    rw same (add_ends h xs p n seg dis ne out e)

snoc-Distinct :
    (xs : Cells) (p d : ℕ) → Distinct xs → p ≢ 0 → has p xs ≡ false → Distinct (xs ++ (p, d) ∷ [])
unfolding Distinct
snoc-Distinct [] p d dis ne out = (ne, refl, tt)
snoc-Distinct ((a, c) ∷ xs) p d (nz, free, dis) ne out = (
  nz,
  ground (arith, has-append a xs ((p, d) ∷ [])),
  snoc-Distinct xs p d dis ne (has_tail p a c xs out),
)

pub last_or-nonzero : (a d : ℕ) (xs : Cells) → Distinct ((a, d) ∷ xs) → last_or a xs ≢ 0
unfolding Distinct
last_or-nonzero a d [] (nz, free, dis) = nz
last_or-nonzero a d ((b, c) ∷ xs) (nz, free, dis) = last_or-nonzero b c xs dis

pub head_nonzero : (a d : ℕ) (xs : Cells) → Distinct ((a, d) ∷ xs) → a ≢ 0
unfolding Distinct
head_nonzero a d xs (nz, free, dis) = nz

pub last_or-apart : (p a d : ℕ) (xs : Cells) → has p ((a, d) ∷ xs) ≡ false → last_or a xs ≢ p
last_or-apart p a d [] out e = has_head p a d [] out e
last_or-apart p a d ((b, c) ∷ xs) out e =
    last_or-apart p b c xs (has_tail p a d ((b, c) ∷ xs) out) e

add_tail_ends :
    (h : Memory) (xs : Cells) (p : ℕ) (n : LlistNode)
    → Seg h 0 xs 0
    → Distinct xs
    → p ≢ 0
    → has p xs ≡ false
    → h p ≡ some n
    → Gives (llist_add_tail p (ends xs) h) h (xs ++ (p, n.content) ∷ []) ((p, n.content) ∷ xs)
unfolding llist_add_tail link_tail Holds Seg
add_tail_ends h [] p n seg dis ne out e = (
  ends ((p, n.content) ∷ []),
  linked h p 0 0 n,
  rw (set_next_lem p 0 h n e, set_both h p 0 0 n e) refl,
  (refl, (write_at (write h p _) p _, tt), snoc-Distinct [] p n.content dis ne out),
  λ b o. ground arith,
)
add_tail_ends h ((a, d) ∷ xs) p n seg dis ne out e =
    let l = last_or a xs in
    let h₂ = linked h p l 0 n in
    let apart = last_or-apart p a d xs out in
    let (m, at, seg') =
      Seg-last h₂ 0 a d xs 0 p (Seg-linked h p l 0 n 0 ((a, d) ∷ xs) 0 out seg) dis in
    (
      ends (((a, d) ∷ xs) ++ (p, n.content) ∷ []),
      write h₂ l (some (node m.prev p m.content)),
      rw
          (
            set_next_lem p 0 h n e,
            set_both h p l 0 n e,
            ==_ne a 0 (head_nonzero a d xs dis),
            ==_ne l 0 (last_or-nonzero a d xs dis),
            set_next_lem l p h₂ m at,
            last_or-append a xs ((p, n.content) ∷ []),
          )
          refl,
      (
        refl,
        Seg-append _ 0 ((a, d) ∷ xs) ((p, n.content) ∷ []) 0 seg'
            (write_off h₂ l p _ (λ q. apart (sym q)) ∙ write_at (write h p _) p _, tt),
        snoc-Distinct ((a, d) ∷ xs) p n.content dis ne out,
      ),
      λ b o.
          write_off h₂ l b _
            (λ q. last_or-apart b a d xs (has_tail b p n.content ((a, d) ∷ xs) o) (sym q))
          ∙ linked_off h p b l 0 n (λ q. has_head b p n.content ((a, d) ∷ xs) o (sym q)),
    )

-- The same at the end of a list.
pub llist_add_tail-Holds :
    (h : Memory) (list : LlistList) (xs : Cells) (p : ℕ) (n : LlistNode)
    → Holds h list xs
    → p ≢ 0
    → has p xs ≡ false
    → h p ≡ some n
    → Gives (llist_add_tail p list h) h (xs ++ (p, n.content) ∷ []) ((p, n.content) ∷ xs)
unfolding Holds
llist_add_tail-Holds h list xs p n (same, seg, dis) ne out e =
    rw same (add_tail_ends h xs p n seg dis ne out e)
