-- ===== src/Matchlist/First.antt =====
-- The first rule that matches counts, in the order in which the rules were added.
use miau.Prelude.{
  ◌≡◌, inl, inr, refl, ap, Bool-cases, Option, some, none, List, [], ◌∷◌, ◌++◌, map, Text,
  if◌then◌else◌,
}
use miau.Match.{match}
use miau.Matchlist.{MatchType, matchlist_add, matchlist_flush, matchlist_get, freed_first}

module _ {ℓ} {A : Type ℓ} where
  abbrev pub or_else : Option A → Option A → Option A
  or_else none b = b
  or_else (some a) b = some a

  get-append :
      (xs ys : List (MatchType A)) (cand : Text)
      → matchlist_get (xs ++ ys) cand ≡ or_else (matchlist_get xs cand) (matchlist_get ys cand)
  unfolding matchlist_get
  get-append [] ys cand = refl
  get-append (e ∷ xs) ys cand = elim (Bool-cases (match (some cand) (some e.rule))) [
    | inl h ↦ rw h refl
    | inr h ↦ rw h (get-append xs ys cand)
  ]

  flush_all :
      (es : List (MatchType A)) → matchlist_flush es ≡ (map (λ (e : MatchType A). e.state) es, [])
  unfolding matchlist_flush
  flush_all [] = refl
  flush_all (e ∷ es) = ap (freed_first e.state) (flush_all es)

  -- A rule that is added counts exactly where no earlier one matches, and flushing gives each state to
  -- the callback once, in order, and leaves no rule.
  pub matchlist_get-matchlist_add :
      (list : List (MatchType A)) (rule : Text) (state : A) (cand : Text)
      → (matchlist_get (matchlist_add list rule state) cand
          ≡ or_else
              (matchlist_get list cand)
              (if match (some cand) (some rule) then some state else none))
        × (matchlist_flush list ≡ (map (λ (e : MatchType A). e.state) list, []))
  unfolding matchlist_add matchlist_get
  matchlist_get-matchlist_add list rule state cand =
      (get-append list (record { rule = rule; state = state } ∷ []) cand, flush_all list)
