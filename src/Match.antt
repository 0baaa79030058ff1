-- ===== src/Match.antt =====
-- src/match.c: wildcard matching (`*` and `?`), and matching with a placeholder replaced first.
-- A match is over when the text or the pattern is, and each round drops a character of one of them.
pub mod Glob
pub mod Sound
pub mod Prefix
pub mod Misses
pub mod Replace
mod Examples
use miau.Prelude.{
  ℕ, zero, suc, ◌-◌, Bool, true, false, ◌||◌, Option, none, some, [], ◌∷◌, ◌++◌, Text, leb, ◌==◌,
  if◌then◌else◌, head0, length, take, drop,
}
use miau.Tools.{upcase}
use miau.Common.{xstrncmp}

-- The `while` loop, on what is left of the text and of the pattern, in upper case.
unfoldable pub match_loop : Text → Text → Bool
match_loop [] [] = true
match_loop [] (q ∷ []) = q == b'*'
match_loop [] (q ∷ r ∷ p) = false
match_loop (c ∷ s) [] = false
match_loop (c ∷ s) (q ∷ p) =
    let both = match_loop s p in
    let pattern_on = match_loop (c ∷ s) p in
    let text_on = match_loop s (q ∷ p) in
    if c == q || q == b'?'
    then both
    else if q == b'*'
    then (if c == head0 p then pattern_on else if head0 p == head0 s then both else text_on)
    else false

-- NULL for the text or the pattern matches nothing.
unfoldable pub match : Option Text → Option Text → Bool
unfolding match_loop upcase
match (some string) (some pattern) = match_loop (upcase string) (upcase pattern)
match none pattern = false
match (some string) none = false

-- The search for the last place of `foo`, from index `n - 1` down. `none` is an index of -1.
unfoldable pub find_last : Text → Text → ℕ → ℕ → Option ℕ
find_last pattern foo len zero = none
find_last pattern foo len (suc at) =
    if xstrncmp (some (drop at pattern)) (some foo) len
    then some at
    else find_last pattern foo len at

-- `foo_len` of -1 is `none`.
unfoldable pub real_len : Text → Option ℕ → ℕ
real_len foo none = length foo
real_len foo (some n) = n

-- `none` is a fault: where `foo` is longer than the pattern by two or more, the index that the
-- search begins with is below -1, so the test for -1 fails and a negative length is copied.
unfoldable pub match_replaced : Option Text → Text → Text → ℕ → Text → Option Bool
unfolding find_last xstrncmp match
match_replaced string pattern foo len replace =
    if leb len (length pattern)
    then elim (find_last pattern foo len (suc (length pattern - len))) [
      | none ↦ some (match string (some pattern))
      | some at ↦
          some (match string (some (take at pattern ++ (replace ++ drop len (drop at pattern)))))
    ]
    else if len == suc (length pattern)
    then some (match string (some pattern))
    else none

unfoldable pub match_replace :
    Option Text → Text → Option Text → Option ℕ → Option Text → Option Bool
unfolding match_replaced real_len
match_replace string pattern none foo_len replace = some (match string (some pattern))
match_replace string pattern (some foo) foo_len none = some (match string (some pattern))
match_replace string pattern (some foo) foo_len (some replace) =
    match_replaced string pattern foo (real_len foo foo_len) replace
