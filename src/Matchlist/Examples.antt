-- ===== src/Matchlist/Examples.antt =====
-- Runs of the rules, and the theorem at a list of two of them.
use miau.Prelude.{ℕ, ◌≡◌, refl, some, none, List, [], ◌∷◌, map, codes, if◌then◌else◌}
use miau.Match.{match}
use miau.Matchlist.{MatchType, matchlist_add, matchlist_flush, matchlist_get}
use miau.Matchlist.First.{or_else, matchlist_get-matchlist_add}

abbrev rules : List (MatchType ℕ)
rules = record { rule = codes "#a*"; state = 1 } ∷ record { rule = codes "#*"; state = 2 } ∷ []

first_counts : matchlist_get rules (codes "#abc") ≡ some 1
unfolding matchlist_get match miau.Match.match_loop miau.Tools.upcase miau.Tools.to_upper
first_counts = refl

matchlist_get-matchlist_add_example :
    (matchlist_get (matchlist_add rules (codes "&*") 3) (codes "&x")
      ≡ or_else
          (matchlist_get rules (codes "&x"))
          (if match (some (codes "&x")) (some (codes "&*")) then some 3 else none))
    × (matchlist_flush rules ≡ (map (λ (e : MatchType ℕ). e.state) rules, []))
matchlist_get-matchlist_add_example = matchlist_get-matchlist_add rules (codes "&*") 3 (codes "&x")
