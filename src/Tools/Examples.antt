-- ===== src/Tools/Examples.antt =====
-- Runs of the functions of src/tools.c, and the theorems at concrete inputs.
use miau.Prelude.{◌≡◌, refl, some, codes, ◌↔◌}
use miau.Tools.{upcase, lowcase, nextword, lastword, randname}
use miau.Tools.Case.{upcase-lowcase_iff}

nextword_run : nextword (codes "foo bar baz") ≡ some (codes "bar baz")
unfolding nextword
nextword_run = refl

lastword_run : lastword (codes "foo bar baz") ≡ codes "baz"
unfolding lastword
lastword_run = refl

randname_run : randname (λ i. 0) (codes "user") 8 b'#' ≡ some (codes "user#")
unfolding randname
randname_run = refl

randname_rotates : randname (λ i. 0) (codes "username") 8 b'#' ≡ some (codes "eusernam")
unfolding randname
randname_rotates = refl

upcase-lowcase_iff_example :
    (upcase (codes "Foo") ≡ upcase (codes "fOO")) ↔ (lowcase (codes "Foo") ≡ lowcase (codes "fOO"))
upcase-lowcase_iff_example = upcase-lowcase_iff (codes "Foo") (codes "fOO")
