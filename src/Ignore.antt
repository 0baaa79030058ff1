-- ===== src/Ignore.antt =====
-- src/ignore.c: the hosts whose CTCP requests are ignored for a while, in a table with holes. The
-- loops run over the indices; a removal makes the table shorter, which the loops see.
pub mod Hosts
mod Examples
use miau.Prelude.{
  ℕ, zero, suc, ◌-◌, Bool, true, false, ◌&&◌, ◌||◌, Option, none, some, List, [], ◌∷◌, Text, ltb,
  ◌==◌, if◌then◌else◌, length, get_elem?, set,
}
use miau.Common.{same_nocase}
use miau.Table.{table_add_item, table_rem_item}
use miau.Table.Sweep.{sweep}

pub record IgnoreType : Type 0 where
  pub hostname : Text
  pub ttl : ℕ
  pub type : ℕ

abbrev pub Ignores : Type 0
Ignores = List (Option IgnoreType)

abbrev pub ignore : Text → ℕ → ℕ → IgnoreType
ignore hostname ttl type = record { hostname = hostname; ttl = ttl; type = type }

unfoldable pub is_entry : Text → ℕ → IgnoreType → Bool
is_entry hostname type e = same_nocase e.hostname hostname && e.type == type

unfoldable pub is_ignore : Ignores → Text → ℕ → Bool
unfolding is_entry
is_ignore [] hostname type = false
is_ignore (none ∷ data') hostname type = is_ignore data' hostname type
is_ignore (some e ∷ data') hostname type = is_entry hostname type e || is_ignore data' hostname type

unfoldable pub ignore_add : Ignores → Option Text → ℕ → ℕ → Ignores
unfolding is_ignore
ignore_add ignores none ttl type = ignores
ignore_add ignores (some hostname) ttl type =
    if is_ignore ignores hostname type
    then ignores
    else table_add_item ignores (ignore hostname ttl type)

abbrev pub unless_host : Text → IgnoreType → Option IgnoreType
unless_host hostname e = if same_nocase e.hostname hostname then none else some e

unfoldable pub ignore_del : Ignores → Text → Ignores
unfolding sweep
ignore_del ignores hostname = sweep (unless_host hostname) (length ignores) 0 ignores

unfoldable pub ignore_del_by_number : Ignores → ℕ → Ignores
ignore_del_by_number ignores i = elim (get_elem? ignores i) [
  | none ↦ ignores
  | some none ↦ ignores
  | some (some e) ↦ table_rem_item ignores i
]

-- One second of an entry's life.
abbrev pub tick : IgnoreType → Option IgnoreType
tick e = if e.ttl == 0 then none else some (record e { ttl = e.ttl - 1 })

unfoldable pub ignores_process : Ignores → Ignores
unfolding sweep
ignores_process ignores = sweep tick (length ignores) 0 ignores
