-- ===== src/Llist/Seg.antt =====
-- List segments in memory: nodes that are linked both ways, between two given neighbours.
use miau.Prelude.{
  ℕ, ◌≡◌, ◌≢◌, refl, sym, ap, ◌∙◌, Bool, true, false, ◌||◌, Option, some, List, [], ◌∷◌, ◌++◌,
  arith, ◌==◌, ==_refl, ==_ne,
}
use miau.Llist.{LlistNode, LlistList, Memory, write}

-- A node of the list: its address and its content.
abbrev pub Cells : Type 0
Cells = List (ℕ × ℕ)

abbrev pub has : ℕ → Cells → Bool
has a [] = false
has a ((b, d) ∷ xs) = (a == b) || has a xs

-- The first address of a list, and the last, or what stands there where it is empty.
abbrev pub first_or : ℕ → Cells → ℕ
first_or s [] = s
first_or s ((a, d) ∷ xs) = a

abbrev pub last_or : ℕ → Cells → ℕ
last_or p [] = p
last_or p ((a, d) ∷ xs) = last_or a xs

abbrev pub node : ℕ → ℕ → ℕ → LlistNode
node prev next content = record { prev = prev; next = next; content = content }

-- From the neighbour `p` on, the nodes `xs` are linked up to the neighbour `s`.
unfoldable pub Seg : Memory → ℕ → Cells → ℕ → Type 0
Seg h p [] s = Unit
Seg h p ((a, d) ∷ xs) s = (h a ≡ some (node p (first_or s xs) d)) × Seg h a xs s

-- No address is 0, and none is there twice.
unfoldable pub Distinct : Cells → Type 0
Distinct [] = Unit
Distinct ((a, d) ∷ xs) = (a ≢ 0) × (has a xs ≡ false) × Distinct xs

abbrev pub ends : Cells → LlistList
ends xs = record { head = first_or 0 xs; tail = last_or 0 xs }

-- The memory holds a list of these nodes.
unfoldable pub Holds : Memory → LlistList → Cells → Type 0
Holds h list xs = (list ≡ ends xs) × Seg h 0 xs 0 × Distinct xs

-- Two memories that agree outside of some addresses.
abbrev pub SameOutside : Cells → Memory → Memory → Type 0
SameOutside xs h g = (b : ℕ) → has b xs ≡ false → g b ≡ h b

pub false-true : false ≢ true
false-true e = ground arith

pub has-append : (a : ℕ) (xs ys : Cells) → has a (xs ++ ys) ≡ (has a xs || has a ys)
has-append a [] ys = refl
has-append a ((b, d) ∷ xs) ys = ground (arith, has-append a xs ys)

pub write_at : (h : Memory) (p : ℕ) (n : Option LlistNode) → write h p n p ≡ n
write_at h p n = rw (==_refl p p refl) refl

pub write_off : (h : Memory) (p q : ℕ) (n : Option LlistNode) → q ≢ p → write h p n q ≡ h q
write_off h p q n ne = rw (==_ne q p ne) refl

-- A write outside of a segment leaves it alone.
pub Seg-write :
    (h : Memory) (q : ℕ) (n : Option LlistNode) (p : ℕ) (xs : Cells) (s : ℕ)
    → has q xs ≡ false
    → Seg h p xs s
    → Seg (write h q n) p xs s
unfolding Seg
Seg-write h q n p [] s out seg = tt
Seg-write h q n p ((a, d) ∷ xs) s out (e, seg) =
    (write_off h q a n (λ eq. ground arith) ∙ e, Seg-write h q n a xs s (ground arith) seg)

pub first_or-append : (s : ℕ) (xs ys : Cells) → first_or s (xs ++ ys) ≡ first_or (first_or s ys) xs
first_or-append s [] ys = refl
first_or-append s ((a, d) ∷ xs) ys = refl

pub last_or-append : (p : ℕ) (xs ys : Cells) → last_or p (xs ++ ys) ≡ last_or (last_or p xs) ys
last_or-append p [] ys = refl
last_or-append p ((a, d) ∷ xs) ys = last_or-append a xs ys

pub Seg-append :
    (h : Memory) (p : ℕ) (xs ys : Cells) (s : ℕ)
    → Seg h p xs (first_or s ys)
    → Seg h (last_or p xs) ys s
    → Seg h p (xs ++ ys) s
unfolding Seg
Seg-append h p [] ys s left right = right
Seg-append h p ((a, d) ∷ xs) ys s (e, left) right =
    (rw (first_or-append s xs ys) e, Seg-append h a xs ys s left right)

pub Seg-split :
    (h : Memory) (p : ℕ) (xs ys : Cells) (s : ℕ)
    → Seg h p (xs ++ ys) s
    → Seg h p xs (first_or s ys) × Seg h (last_or p xs) ys s
unfolding Seg
Seg-split h p [] ys s seg = (tt, seg)
Seg-split h p ((a, d) ∷ xs) ys s (e, seg) =
    let (left, right) = Seg-split h a xs ys s seg in
    ((rw (first_or-append s xs ys) at e, left), right)

pub has-last_or : (a d : ℕ) (xs : Cells) → has (last_or a xs) ((a, d) ∷ xs) ≡ true
has-last_or a d [] = ground arith
has-last_or a d ((b, e) ∷ xs) = ground (arith, has-last_or b e xs)

-- A write to the `next` of the last node of a segment.
pub Seg-last :
    (h : Memory) (p a d : ℕ) (xs : Cells) (s q : ℕ)
    → Seg h p ((a, d) ∷ xs) s
    → Distinct ((a, d) ∷ xs)
    → (n : LlistNode) × (h (last_or a xs) ≡ some n)
      × Seg (write h (last_or a xs) (some (node n.prev q n.content))) p ((a, d) ∷ xs) q
unfolding Seg Distinct
Seg-last h p a d [] s q (e, seg) dis = (node p s d, e, (write_at h a _, tt))
Seg-last h p a d ((b, c) ∷ xs) s q (e, seg) (ne, out, dis) =
    let (n, at, seg') = Seg-last h a b c xs s q seg dis in
    (
      n,
      at,
      (
        write_off h (last_or b xs) a _ (λ eq.
              absurd (false-true (sym out ∙ ap (λ z. has z ((b, c) ∷ xs)) eq ∙ has-last_or b c xs)))
            ∙ e,
        seg',
      ),
    )

-- A write to the `prev` of its first node.
pub Seg-first :
    (h : Memory) (p a d : ℕ) (xs : Cells) (s q : ℕ)
    → Seg h p ((a, d) ∷ xs) s
    → Distinct ((a, d) ∷ xs)
    → Seg (write h a (some (node q (first_or s xs) d))) q ((a, d) ∷ xs) s
unfolding Seg Distinct
Seg-first h p a d xs s q (e, seg) (ne, out, dis) = (write_at h a _, Seg-write h a _ a xs s out seg)
