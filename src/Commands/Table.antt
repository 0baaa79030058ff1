-- ===== src/Commands/Table.antt =====
-- The hash table implements a search of one list for a name, whatever the case of its letters.
use miau.Prelude.{
  ℕ, zero, suc, ◌<◌, ◌≡◌, ◌≢◌, refl, sym, ◌∙◌, ap, inl, inr, true, false, some, none, [], ◌∷◌, ◌++◌,
  Text, All, arith, if◌then◌else◌, Option-cases, length, get_or, set, length-set, ℕ_discrete,
  append-nil, append_assoc,
}
use miau.Common.{same_nocase}
use miau.Common.Laws.{same_nocase_sym, same_nocase_trans}
use miau.Commands.{
  max_cmd, CommandHash, Chain, CmdHash, command_hash, find_entry, command_find, command_add,
  empty_buckets, add_all, cmd_add_table, command_setup,
}
use miau.Commands.Hash.{IsBytes, command_hash-lt, command_hash-nocase}

get_or-set_self : (t : CmdHash) (i : ℕ) (v : Chain) → i < length t → get_or (set t i v) i [] ≡ v
get_or-set_self [] i v h = elim h [ ]
get_or-set_self (b ∷ t) zero v h = refl
get_or-set_self (b ∷ t) (suc i) v h = get_or-set_self t i v (omega arith)

get_or-set_ne :
    (t : CmdHash) (i j : ℕ) (v : Chain) → i ≢ j → get_or (set t i v) j [] ≡ get_or t j []
get_or-set_ne [] i j v ne = refl
get_or-set_ne (b ∷ t) zero zero v ne = absurd (ne refl)
get_or-set_ne (b ∷ t) zero (suc j) v ne = refl
get_or-set_ne (b ∷ t) (suc i) zero v ne = refl
get_or-set_ne (b ∷ t) (suc i) (suc j) v ne = get_or-set_ne t i j v (λ e. ne (ap suc e))

-- One more entry at the end counts only where nothing in front of it has the name.
find_entry-append :
    (l : Chain) (e : CommandHash) (p : Text)
    → find_entry (l ++ e ∷ []) p ≡ elim (find_entry l p) [
      | none ↦ if same_nocase p e.cmd then some e.cmdvalue else none
      | some v ↦ some v
    ]
unfolding find_entry
find_entry-append [] e p = refl
find_entry-append (d ∷ l) e p = ground (arith, find_entry-append l e p)

-- A search finds the same for names that differ only in case.
find_entry-nocase :
    (l : Chain) (p q : Text) → same_nocase p q ≡ true → find_entry l p ≡ find_entry l q
unfolding find_entry
find_entry-nocase [] p q h = refl
find_entry-nocase (d ∷ l) p q h = ground (
  arith,
  find_entry-nocase l p q h,
  same_nocase_trans p q d.cmd h,
  same_nocase_trans q p d.cmd,
  same_nocase_sym p q,
)

-- The table answers as the list does, for every name of bytes.
pub record Implements (table : CmdHash) (l : Chain) : Type 0 where
  pub buckets : length table ≡ max_cmd
  pub answers :
      (p : Text) → IsBytes p → find_entry (get_or table (command_hash p) []) p ≡ find_entry l p

-- The two cases of `command_add`.
added :
    (table : CmdHash) (l : Chain) (e : CommandHash) (p : Text)
    → Implements table l
    → IsBytes e.cmd
    → IsBytes p
    → find_entry
        (get_or
          (set table (command_hash e.cmd) (get_or table (command_hash e.cmd) [] ++ e ∷ []))
          (command_hash p)
          [])
        p
      ≡ find_entry (l ++ e ∷ []) p
added table l e p i he hp =
    let bucket = get_or table (command_hash e.cmd) [] in
    let room : command_hash e.cmd < length table =
      omega (arith, i.buckets, command_hash-lt e.cmd) in
    elim (ℕ_discrete (command_hash e.cmd) (command_hash p)) [
      | yes same ↦
          let there : find_entry bucket p ≡ find_entry l p = rw (← same) at (i.answers p hp) in
          rw (← same, get_or-set_self table (command_hash e.cmd) (bucket ++ e ∷ []) room)
            (rw (find_entry-append bucket e p, find_entry-append l e p, there))
      | no ne ↦
          let apart : same_nocase p e.cmd ≡ false =
            ground (arith, command_hash-nocase p e.cmd hp he) in
          rw (get_or-set_ne table (command_hash e.cmd) (command_hash p) (bucket ++ e ∷ []) ne)
            (rw (i.answers p hp, find_entry-append l e p) (ground (arith, apart)))
    ]

kept :
    (table : CmdHash) (l : Chain) (e : CommandHash) (p : Text) (v : ℕ)
    → Implements table l
    → IsBytes e.cmd
    → IsBytes p
    → find_entry (get_or table (command_hash e.cmd) []) e.cmd ≡ some v
    → find_entry (get_or table (command_hash p) []) p ≡ find_entry (l ++ e ∷ []) p
kept table l e p v i he hp found =
    let first : find_entry l e.cmd ≡ some v = sym (i.answers e.cmd he) ∙ found in
    rw (i.answers p hp, find_entry-append l e p)
      (ground (arith, first, find_entry-nocase l p e.cmd))

command_add-Implements :
    (table : CmdHash) (l : Chain) (e : CommandHash)
    → IsBytes e.cmd
    → Implements table l
    → Implements (command_add table e) (l ++ e ∷ [])
unfolding command_add
command_add-Implements table l e he i =
    elim (Option-cases (find_entry (get_or table (command_hash e.cmd) []) e.cmd)) [
      | inl new ↦
          rw (new, command_add)
            (record {
              buckets = length-set table (command_hash e.cmd) _ ∙ i.buckets;
              answers = λ p hp. added table l e p i he hp;
            })
      | inr (v, old) ↦
          rw (old, command_add)
            (record { buckets = i.buckets; answers = λ p hp. kept table l e p v i he hp old })
    ]

abbrev pub AreBytes : Chain → Type 0
AreBytes = All (λ e. IsBytes e.cmd)

add_all-Implements :
    (table : CmdHash) (l entries : Chain)
    → AreBytes entries
    → Implements table l
    → Implements (add_all table entries) (l ++ entries)
unfolding add_all
add_all-Implements table l [] h i = rw (append-nil l) i
add_all-Implements table l (e ∷ entries) h i = rw (append_assoc l (e ∷ []) entries) at (
    add_all-Implements (command_add table e) (l ++ e ∷ []) entries h.1
      (command_add-Implements table l e h.0 i))

get_or-empty_buckets : (n i : ℕ) → get_or (empty_buckets n) i [] ≡ []
unfolding empty_buckets
get_or-empty_buckets zero i = refl
get_or-empty_buckets (suc n) zero = refl
get_or-empty_buckets (suc n) (suc i) = get_or-empty_buckets n i

empty-Implements : Implements (empty_buckets max_cmd) []
unfolding empty_buckets find_entry
empty-Implements = record {
  buckets = refl;
  answers = λ p hp. rw (get_or-empty_buckets max_cmd (command_hash p));
}

-- After any sequence of additions to an empty table `command_find` gives the value of the first
-- entry with the name, the case of letters aside, and 0 where there is none.
pub command_find-add_all :
    (entries : Chain) (p : Text)
    → AreBytes entries
    → IsBytes p
    → command_find (add_all (empty_buckets max_cmd) entries) p
      ≡ elim (find_entry entries p) [ none ↦ 0 | some value ↦ value ]
unfolding command_find
command_find-add_all entries p h hp = rw (
  (add_all-Implements (empty_buckets max_cmd) [] entries h empty-Implements).answers p hp,
  command_find,
)

-- With the table of src/commands.c set up, `command_find` searches that table.
pub command_find-setup :
    (p : Text)
    → IsBytes p
    → command_find command_setup p
      ≡ elim (find_entry cmd_add_table p) [ none ↦ 0 | some value ↦ value ]
unfolding command_setup
command_find-setup p hp = command_find-add_all cmd_add_table p (omega arith) hp
