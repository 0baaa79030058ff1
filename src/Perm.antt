-- ===== src/Perm.antt =====
-- src/perm.c: lists of masks with a permission, of which the last mask that matches decides. The
-- linked list is a list here.
pub mod Last
pub mod Faults
mod Examples
use miau.Prelude.{
  ℕ, zero, suc, Bool, Option, some, none, List, [], ◌∷◌, ◌++◌, Text, codes, ◌==◌, if◌then◌else◌,
  drop,
}
use miau.Match.{match_replace}

pub record PermType : Type 0 where
  pub name : Text
  pub allowed : ℕ

abbrev pub PermList : Type 0
PermList = List PermType

-- The fields of `status` that `is_perm` reads: the mask of miau itself, and the index in it of the
-- host, 0 where the host is not known.
pub record Ident : Type 0 where
  pub idhostname : Text
  pub goodhostname : ℕ

unfoldable pub add_perm : PermList → Option Text → ℕ → PermList
add_perm list none allowed = list
add_perm list (some name) allowed = list ++ record { name = name; allowed = allowed } ∷ []

unfoldable pub empty_perm : PermList → PermList
empty_perm list = []

unfoldable pub known_host : Ident → Option Text
known_host status =
    if status.goodhostname == 0 then none else some (drop status.goodhostname status.idhostname)

-- The test of one mask. `none` is the fault of `match_replace`.
unfoldable pub perm_hit : Option Text → Option Text → PermType → Option Bool
perm_hit host name perm = match_replace name perm.name (some (codes "@@")) (some 2) host

unfoldable pub perm_walk : Option Text → Option Text → PermList → ℕ → Option ℕ
perm_walk host name [] allowed = some allowed
perm_walk host name (perm ∷ list) allowed = elim (perm_hit host name perm) [
  | none ↦ none
  | some hit ↦ perm_walk host name list (if hit then perm.allowed else allowed)
]

unfoldable pub is_perm : Ident → PermList → Option Text → Option ℕ
unfolding known_host perm_walk perm_hit
is_perm status list name = perm_walk (known_host status) name list 0
