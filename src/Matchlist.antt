-- ===== src/Matchlist.antt =====
-- src/matchlist.c: rules with a state each, of which the first that matches counts. The list of
-- src/list.c is a List here, and the result -1 of a search is `none`.
pub mod First
mod Examples
use miau.Prelude.{ℕ, Bool, Option, some, none, List, [], ◌∷◌, ◌++◌, Text, if◌then◌else◌}
use miau.Match.{match}

pub record MatchType {ℓ} (A : Type ℓ) : Type ℓ where
  pub rule : Text
  pub state : A

module _ {ℓ} {A : Type ℓ} where
  unfoldable pub matchlist_add : List (MatchType A) → Text → A → List (MatchType A)
  matchlist_add list rule state = list ++ record { rule = rule; state = state } ∷ []

  abbrev pub freed_first : A → List A × List (MatchType A) → List A × List (MatchType A)
  freed_first state (freed, left) = (state ∷ freed, left)

  -- The states that are given to the callback that frees them, in order, and the list that is left.
  unfoldable pub matchlist_flush : List (MatchType A) → List A × List (MatchType A)
  matchlist_flush [] = ([], [])
  matchlist_flush (e ∷ list) = freed_first e.state (matchlist_flush list)

  unfoldable pub matchlist_get : List (MatchType A) → Text → Option A
  unfolding match
  matchlist_get [] cand = none
  matchlist_get (e ∷ list) cand =
      if match (some cand) (some e.rule) then some e.state else matchlist_get list cand
