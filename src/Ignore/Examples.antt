-- ===== src/Ignore/Examples.antt =====
-- Runs of the ignore list, and the theorems at a table with a hole.
use miau.Prelude.{◌≡◌, refl, some, none, [], ◌∷◌, codes}
use miau.Tools.{to_lower}
use miau.Common.{same_nocase}
use miau.Table.Compact.{live}
use miau.Ignore.{Ignores, ignore, ignore_del, ignores_process}
use miau.Table.Sweep.{filter_map}
use miau.Ignore.Hosts.{process_times, aged, live-process_times}

abbrev table : Ignores
table = some (ignore (codes "a.host") 0 1) ∷ none ∷ some (ignore (codes "b.host") 6 1) ∷ []

process_run : ignores_process table ≡ none ∷ none ∷ some (ignore (codes "b.host") 5 1) ∷ []
unfolding ignores_process miau.Table.table_rem_item
process_run = refl

del_run : ignore_del table (codes "B.HOST") ≡ some (ignore (codes "a.host") 0 1) ∷ []
unfolding ignore_del miau.Table.table_rem_item same_nocase to_lower
del_run = refl

live-process_times_example : live (process_times 3 table) ≡ filter_map (aged 3) (live table)
live-process_times_example = live-process_times 3 table
