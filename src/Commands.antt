-- ===== src/Commands.antt =====
-- src/commands.c: the hash table of the commands of the IRC protocol. A bucket's chain is a list, and
-- the table a list of 16 buckets. Bytes are read as numbers below 256.
pub mod Hash
pub mod Table
mod Examples
use Prim.Native.Nat.{bit_and}
use miau.Prelude.{
  ℕ, zero, suc, ◌+◌, ◌%◌, Bool, Option, none, some, List, [], ◌∷◌, ◌++◌, Text, codes, if◌then◌else◌,
  get_or, set,
}
use miau.Common.{same_nocase}

abbrev pub max_cmd : ℕ
max_cmd = 16

pub record CommandHash : Type 0 where
  pub cmd : Text
  pub cmdvalue : ℕ

abbrev pub Chain : Type 0
Chain = List CommandHash

abbrev pub CmdHash : Type 0
CmdHash = List Chain

abbrev pub command : Text → ℕ → CommandHash
command cmd cmdvalue = record { cmd = cmd; cmdvalue = cmdvalue }

-- The sum that the loop adds up, from `hash_val` on.
unfoldable pub hash_from : ℕ → Text → ℕ
hash_from hash_val [] = hash_val
hash_from hash_val (c ∷ p) = hash_from (hash_val + bit_and c 0xDF) p

unfoldable pub command_hash : Text → ℕ
unfolding hash_from
command_hash p = hash_from 0 p % max_cmd

-- The first entry of a chain with the name `p`.
unfoldable pub find_entry : Chain → Text → Option ℕ
find_entry [] p = none
find_entry (e ∷ chain) p = if same_nocase p e.cmd then some e.cmdvalue else find_entry chain p

unfoldable pub command_find : CmdHash → Text → ℕ
unfolding find_entry command_hash
command_find table p = elim (find_entry (get_or table (command_hash p) []) p) [
  | none ↦ 0
  | some value ↦ value
]

-- A name that the chain has already is left alone, a new one goes to its end.
unfoldable pub command_add : CmdHash → CommandHash → CmdHash
unfolding find_entry command_hash
command_add table e =
    let i = command_hash e.cmd in
    let chain = get_or table i [] in
    elim (find_entry chain e.cmd) [ some value ↦ table | none ↦ set table i (chain ++ e ∷ []) ]

-- The masks of src/commands.h.
abbrev pub cmd_add_table : Chain
cmd_add_table =
    command (codes "PING") 0x0001
    ∷ command (codes "PONG") 0x0002
    ∷ command (codes "MODE") 0x0040
    ∷ command (codes "NICK") 0x0004
    ∷ command (codes "NOTICE") 0x0400
    ∷ command (codes "KICK") 0x0008
    ∷ command (codes "JOIN") 0x0010
    ∷ command (codes "PART") 0x0020
    ∷ command (codes "TOPIC") 0x0080
    ∷ command (codes "KILL") 0x0100
    ∷ command (codes "PRIVMSG") 0x0200
    ∷ command (codes "QUIT") 0x1000
    ∷ []

unfoldable pub empty_buckets : ℕ → CmdHash
empty_buckets zero = []
empty_buckets (suc n) = [] ∷ empty_buckets n

unfoldable pub add_all : CmdHash → Chain → CmdHash
unfolding command_add
add_all table [] = table
add_all table (e ∷ entries) = add_all (command_add table e) entries

unfoldable pub command_setup : CmdHash
unfolding empty_buckets add_all
command_setup = add_all (empty_buckets max_cmd) cmd_add_table
