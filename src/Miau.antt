-- ===== src/Miau.antt =====
-- src/miau.c: the timers that its main loop moves once a second, and numbers in parameters. The children
-- model the other parts of the file.

pub mod Timer
pub mod Login
pub mod Locked
pub mod Nick
pub mod Tries
pub mod Made
pub mod Clock
pub mod Kept
pub mod Silent
pub mod Away
pub mod Left
pub mod Said
mod Examples
use miau.Prelude.{
  ℕ, zero, suc, ◌+◌, ◌-◌, ◌*◌, ◌%◌, Bool, true, false, not, ◌&&◌, ◌||◌, Option, none, some, List,
  [], ◌∷◌, Text, ltb, leb, ◌==◌, if◌then◌else◌, drop,
}
use miau.Prelude.Int.{ℤ, pos, negsuc, above, below}

abbrev pub inc : ℤ → ℤ
inc (pos n) = pos (suc n)
inc (negsuc zero) = pos 0
inc (negsuc (suc n)) = negsuc n

abbrev pub is : ℤ → ℕ → Bool
is (pos m) n = m == n
is (negsuc m) n = false

-- How far a timer is above a number that it is above.
abbrev pub over : ℤ → ℕ → ℕ
over (pos m) n = m - n
over (negsuc m) n = 0

-- What the caller is told, and the timer.
unfoldable pub proceed_timer_safe : ℤ → ℕ → ℕ → ℕ → ℕ × ℤ
proceed_timer_safe timer warn exceed repeat =
    let t = inc timer in
    if not (below t exceed)
    then (2, pos 0)
    else if is t warn
    then (1, t)
    else if not (repeat == 0) && above warn t && over t warn % repeat == 0
    then (1, t)
    else (0, t)

unfoldable pub proceed_timer : ℤ → ℕ → ℕ → ℕ × ℤ
unfolding proceed_timer_safe
proceed_timer timer warn exceed = proceed_timer_safe timer warn exceed 0

-- `atoi` of the C library: spaces, a sign, digits.
abbrev pub is_space : ℕ → Bool
is_space c = c == b' ' || leb 9 c && leb c 13

abbrev pub digits : ℕ → Text → ℕ
digits n [] = n
digits n (c ∷ s) = if leb b'0' c && leb c b'9' then digits (n * 10 + (c - b'0')) s else n

abbrev pub negated : ℕ → ℤ
negated zero = pos 0
negated (suc n) = negsuc n

abbrev pub skip_spaces : Text → Text
skip_spaces [] = []
skip_spaces (c ∷ s) = if is_space c then skip_spaces s else c ∷ s

abbrev pub signed : Text → ℤ
signed [] = pos 0
signed (c ∷ s) =
    if c == b'-'
    then negated (digits 0 s)
    else if c == b'+'
    then pos (digits 0 s)
    else pos (digits 0 (c ∷ s))

unfoldable pub atoi : Text → ℤ
atoi s = signed (skip_spaces s)
