-- ===== src/Commands/Examples.antt =====
-- Runs of `command_find`, and the theorems at concrete names.
use miau.Prelude.{◌≡◌, refl, some, none, arith, codes}
use miau.Tools.{to_lower}
use miau.Common.{same_nocase}
use miau.Commands.{find_entry, command_find, cmd_add_table, command_setup}
use miau.Commands.Table.{command_find-setup}

privmsg : command_find command_setup (codes "privmsg") ≡ 0x0200
unfolding command_find command_setup same_nocase to_lower
privmsg = refl

unknown : command_find command_setup (codes "WHOIS") ≡ 0
unfolding command_find command_setup same_nocase to_lower
unknown = refl

command_find-setup_example :
    command_find command_setup (codes "Topic")
    ≡ elim (find_entry cmd_add_table (codes "Topic")) [ none ↦ 0 | some value ↦ value ]
command_find-setup_example = command_find-setup (codes "Topic") (omega arith)
