-- ===== src/Llist.antt =====
-- src/llist.c: doubly linked lists, on a memory of nodes with addresses. NULL is the address 0. Each
-- operation gives `none` where it reads or writes a node that is not allocated.
pub mod Seg
pub mod Grow
pub mod Delete
mod Examples
use miau.Prelude.{ℕ, zero, suc, ◌==◌, Option, none, some, if◌then◌else◌}
use miau.Prelude.Strings.{◌>>=◌}

pub record LlistNode : Type 0 where
  pub prev : ℕ
  pub next : ℕ
  pub content : ℕ

pub record LlistList : Type 0 where
  pub head : ℕ
  pub tail : ℕ

abbrev pub Memory : Type 0
Memory = ℕ → Option LlistNode

abbrev pub write : Memory → ℕ → Option LlistNode → Memory
write h p n q = if q == p then n else h q

-- `p->next = v` and `p->prev = v`.
unfoldable pub set_next : ℕ → ℕ → Memory → Option Memory
set_next p v h = do n ← h p; some (write h p (some (record n { next = v })))

unfoldable pub set_prev : ℕ → ℕ → Memory → Option Memory
set_prev p v h = do n ← h p; some (write h p (some (record n { prev = v })))

-- The node that `xmalloc` gives, at the address `p`, with what its links happen to be.
unfoldable pub llist_create : ℕ → ℕ → ℕ → ℕ → Memory → Memory
llist_create p prev next content h =
    write h p (some (record { prev = prev; next = next; content = content }))

-- The rest of `llist_add` once the links of the node are written.
unfoldable pub link_head : ℕ → LlistList → Memory → Option (LlistList × Memory)
unfolding set_prev
link_head node list h =
    if list.head == 0
    then some (record { head = node; tail = if list.tail == 0 then node else list.tail }, h)
    else do h₁ ← set_prev list.head node h; some (record { head = node; tail = list.tail }, h₁)

unfoldable pub llist_add : ℕ → LlistList → Memory → Option (LlistList × Memory)
unfolding set_next set_prev link_head
llist_add node list h = do
  h₁ ← set_next node list.head h
  h₂ ← set_prev node 0 h₁
  link_head node list h₂

unfoldable pub link_tail : ℕ → LlistList → Memory → Option (LlistList × Memory)
unfolding set_next
link_tail node list h =
    if list.head == 0
    then some (record { head = node; tail = node }, h)
    else if list.tail == 0
    then some (record { head = list.head; tail = node }, h)
    else do h₁ ← set_next list.tail node h; some (record { head = list.head; tail = node }, h₁)

unfoldable pub llist_add_tail : ℕ → LlistList → Memory → Option (LlistList × Memory)
unfolding set_next set_prev link_tail
llist_add_tail node list h = do
  h₁ ← set_next node 0 h
  h₂ ← set_prev node list.tail h₁
  link_tail node list h₂

-- The two halves of `llist_delete`, for the node before and the node behind.
unfoldable pub unlink_prev : LlistNode → LlistList → Memory → Option (LlistList × Memory)
unfolding set_next
unlink_prev n list h =
    if n.prev == 0
    then some (record { head = n.next; tail = list.tail }, h)
    else do h₁ ← set_next n.prev n.next h; some (list, h₁)

unfoldable pub unlink_next : LlistNode → LlistList → Memory → Option (LlistList × Memory)
unfolding set_prev
unlink_next n list h =
    if n.next == 0
    then some (record { head = list.head; tail = n.prev }, h)
    else do h₁ ← set_prev n.next n.prev h; some (list, h₁)

abbrev pub freed : ℕ → LlistList × Memory → LlistList × Memory
freed p (list, h) = (list, write h p none)

-- Each half reads the links of the node again.
unfoldable pub llist_delete : ℕ → LlistList → Memory → Option (LlistList × Memory)
unfolding unlink_prev unlink_next
llist_delete node list h = do
  n ← h node
  half ← unlink_prev n list h
  m ← half.1 node
  end ← unlink_next m half.0 half.1
  some (freed node end)

-- The loop of `llist_find` from a node on, over as many nodes as there is fuel for. A result of 0 is
-- NULL, and `none` a node that is not allocated, or the end of the fuel.
unfoldable pub find_node : ℕ → ℕ → ℕ → Memory → Option ℕ
find_node zero p content h = none
find_node (suc fuel) p content h =
    if p == 0
    then some 0
    else do n ← h p; if n.content == content then some p else find_node fuel n.next content h

unfoldable pub llist_find : ℕ → ℕ → LlistList → Memory → Option ℕ
unfolding find_node
llist_find fuel content list h = find_node fuel list.head content h
