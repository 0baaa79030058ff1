-- ===== src/Server/Modes.antt =====
-- src/server.c: what a change of modes of an active channel does to what miau knows of the channel.
use miau.Prelude.{ℕ, Bool, ◌&&◌, ◌||◌, Option, none, some, List, [], ◌∷◌, Text, ◌==◌, if◌then◌else◌}
use miau.Prelude.Int.{ℤ, pos}
use miau.Prelude.Strings.{tokens_by}
use miau.Common.{same_nocase}
use miau.Automode.{AutomodeType, automode_drop_channel}

-- The fields of the channel that the function writes.
pub record Moded : Type 0 where
  pub key : Text
  pub oper : ℤ
  pub mode_queue : List AutomodeType

abbrev pub is_sign : ℕ → Bool
is_sign c = c == b'+' || c == b'-'

-- Giving or taking a mode of a nick. A given mode needs no automode any more.
unfoldable pub nick_mode : Text → ℕ → ℕ → Text → Moded → Moded
unfolding automode_drop_channel
nick_mode nickname modetype c param chan =
    let mine = same_nocase nickname param && c == b'o' in
    if modetype == b'-'
    then (if mine then record chan { oper = pos 0 } else chan)
    else if mine
    then record chan { oper = pos 1 }
    else record chan { mode_queue = automode_drop_channel chan.mode_queue (some param) c }

-- The parameters that are left, and the channel.
abbrev pub Step : Type 0
Step = List Text × Moded

-- One letter: which letters take the next parameter, and what they do with it.
unfoldable pub one_mode : Text → ℕ → ℕ → Step → Step
unfolding nick_mode
one_mode nickname modetype c ([], chan) = ([], chan)
one_mode nickname modetype c (param ∷ params, chan) =
    if c == b'o' || c == b'v'
    then (params, nick_mode nickname modetype c param chan)
    else if c == b'k'
    then (params, if modetype == b'+' then record chan { key = param } else chan)
    else if c == b'l'
    then (if modetype == b'+' then (params, chan) else (param ∷ params, chan))
    else if c == b'b' || c == b'e' || c == b'I'
    then (params, chan)
    else (param ∷ params, chan)

-- The loop over the letters. A sign is taken together with the character behind it; `none` is a fault:
-- with a sign at the end, the loop goes on behind the text.
unfoldable pub mode_loop : Text → ℕ → Text → Step → Option Step
unfolding one_mode
mode_loop nickname modetype [] st = some st
mode_loop nickname modetype (c ∷ []) st =
    if is_sign c then none else some (one_mode nickname modetype c st)
mode_loop nickname modetype (c ∷ d ∷ rest) st =
    let signed = mode_loop nickname c rest (one_mode nickname c d st) in
    let plain = mode_loop nickname modetype (d ∷ rest) (one_mode nickname modetype c st) in
    if is_sign c then signed else plain

-- The channel that the loop leaves.
abbrev pub outcome : Option Step → Option Moded
outcome none = none
outcome (some (left, chan)) = some chan

-- A text of spaces alone has no first word, which is a fault as well.
unfoldable pub parse_modes : Text → Text → Moded → Option Moded
unfolding mode_loop
parse_modes nickname original chan = elim (tokens_by b' ' [] original) as (λ _. Option Moded) [
  | [] ↦ none
  | word ∷ params ↦ outcome (mode_loop nickname b'+' word (params, chan))
]
