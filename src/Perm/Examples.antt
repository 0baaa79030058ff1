-- ===== src/Perm/Examples.antt =====
-- Runs of `is_perm`, and the theorems at concrete lists.
use miau.Prelude.{ℕ, ◌≡◌, refl, some, none, [], ◌∷◌, Text, codes}
use miau.Perm.{PermType, PermList, Ident, is_perm}
use miau.Tools.{to_upper}
use miau.Match.{match_replace}
use miau.Perm.Last.{is_perm-none}

abbrev status : Ident
status = record { idhostname = codes "user@host"; goodhostname = 5 }

abbrev perm : Text → ℕ → PermType
perm name allowed = record { name = name; allowed = allowed }

abbrev rules : PermList
rules = perm (codes "*.example.org") 1 ∷ perm (codes "bad.*") 0 ∷ []

is_perm_run : is_perm status rules (some (codes "bad.example.org")) ≡ some 0
unfolding is_perm match_replace to_upper
is_perm_run = refl

host_replaced :
    is_perm status (perm (codes "nick!*@@@") 1 ∷ []) (some (codes "nick!u@host")) ≡ some 1
unfolding is_perm match_replace to_upper
host_replaced = refl

empty_mask : is_perm status (perm [] 1 ∷ []) (some (codes "10.0.0.1")) ≡ none
unfolding is_perm match_replace to_upper
empty_mask = refl

is_perm-none_example : is_perm status rules (some (codes "localhost")) ≡ some 0
unfolding is_perm match_replace to_upper
is_perm-none_example = is_perm-none status (some (codes "localhost")) rules (refl, (refl, tt))
