-- ===== src/Llist/Examples.antt =====
-- A list of two nodes in memory: runs, and the theorems at it.
use miau.Prelude.{◌≡◌, refl, none, some, [], ◌∷◌, ◌++◌, arith, ◌==◌, if◌then◌else◌}
use miau.Llist.{Memory, llist_add_tail, llist_delete, llist_find}
use miau.Llist.Seg.{Cells, node, Seg, Distinct, Holds, ends}
use miau.Llist.Grow.{Gives, llist_add_tail-Holds}
use miau.Llist.Delete.{Deletes, llist_delete-Holds}

abbrev cells : Cells
cells = (10, 1) ∷ (20, 2) ∷ []

-- Two nodes of a list, and one that is on none yet.
abbrev memory : Memory
memory a =
    if a == 10
    then some (node 0 20 1)
    else if a == 20
    then some (node 10 0 2)
    else if a == 30
    then some (node 7 7 3)
    else none

two : Holds memory (ends cells) cells
unfolding Holds Seg Distinct
two = (refl, (refl, (refl, tt)), (λ e. ground arith, refl, (λ e. ground arith, refl, tt)))

llist_add_tail-Holds_example :
    Gives (llist_add_tail 30 (ends cells) memory) memory (cells ++ (30, 3) ∷ []) ((30, 3) ∷ cells)
llist_add_tail-Holds_example =
    llist_add_tail-Holds memory (ends cells) cells 30 (node 7 7 3) two (λ e. ground arith) refl refl

llist_delete-Holds_example :
    Deletes 20 (llist_delete 20 (ends cells) memory) memory ((10, 1) ∷ []) cells
llist_delete-Holds_example = llist_delete-Holds memory (ends cells) ((10, 1) ∷ []) 20 2 [] two

finds_second : llist_find 3 2 (ends cells) memory ≡ some 20
unfolding llist_find
finds_second = refl
