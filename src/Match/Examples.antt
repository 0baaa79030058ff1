-- ===== src/Match/Examples.antt =====
-- Runs of `match` and `match_replace`, some of them the cases of src/test_match.c, and the theorems
-- at concrete inputs.
use miau.Prelude.{◌≡◌, refl, Bool, some, true, false, Text, codes}
use miau.Tools.{upcase, to_upper}
use miau.Match.{match, match_replace}
use miau.Match.Glob.{Glob}
use miau.Match.Sound.{match-Glob}

run : Text → Text → Bool
run s p = match (some s) (some p)

literal_case : run (codes "foo") (codes "FOO") ≡ true
unfolding run match to_upper
literal_case = refl

suffix_case : run (codes "foobar") (codes "*BAR") ≡ true
unfolding run match to_upper
suffix_case = refl

second_case : run (codes "foobar") (codes "*ba*") ≡ true
unfolding run match to_upper
second_case = refl

-- The source's test expects a match here.
first_case : run (codes "foobar") (codes "*oba*") ≡ false
unfolding run match to_upper
first_case = refl

replaced :
    match_replace
      (some (codes "foo@host-goo"))
      (codes "foo@@@-goo")
      (some (codes "@@"))
      (some 2)
      (some (codes "host"))
    ≡ some true
unfolding match_replace to_upper
replaced = refl

match-Glob_example : Glob (upcase (codes "*BAR")) (upcase (codes "foobar"))
unfolding match to_upper
match-Glob_example = match-Glob (codes "foobar") (codes "*BAR") refl
