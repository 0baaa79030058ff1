-- ===== src/Automode.antt =====
-- src/automode.c: the queue of modes that a channel's nicks wait for, and the messages that give them.
pub mod Queue
pub mod Groups
mod Examples
use miau.Prelude.{
  ℕ, zero, suc, ◌+◌, ◌-◌, Bool, true, false, ◌&&◌, ◌||◌, Option, some, none, List, [], ◌∷◌, ◌++◌,
  Text, codes, ◌==◌, if◌then◌else◌, length,
}
use miau.Prelude.Int.{ℤ, pos, negsuc}
use miau.Common.{same_nocase}
use miau.Perm.{PermList, Ident, is_perm}
use miau.Irc.{Flood, irc_write_head}

pub record AutomodeType : Type 0 where
  pub nick : Text
  pub mode : ℕ

-- The fields of a channel that are read here.
pub record ModeChannel : Type 0 where
  pub name : Text
  pub oper : ℤ
  pub mode_queue : List AutomodeType

abbrev pub any_mode : ℕ
any_mode = 0

unfoldable pub automode_lookup : Text → List AutomodeType → ℕ → Bool
automode_lookup nick [] mode = false
automode_lookup nick (e ∷ queue) mode =
    let later = automode_lookup nick queue mode in
    if same_nocase nick e.nick && e.mode == mode then true else later

abbrev pub nick_ok : Option Text → AutomodeType → Bool
nick_ok none e = true
nick_ok (some nick) e = same_nocase nick e.nick

-- The number of queued modes in `status` is not touched.
unfoldable pub automode_drop_channel : List AutomodeType → Option Text → ℕ → List AutomodeType
automode_drop_channel [] nick mode = []
automode_drop_channel (e ∷ queue) nick mode =
    let rest = automode_drop_channel queue nick mode in
    if nick_ok nick e && (mode == any_mode || mode == e.mode) then rest else e ∷ rest

unfoldable pub automode_drop_nick : List ModeChannel → Text → ℕ → List ModeChannel
unfolding automode_drop_channel
automode_drop_nick [] nick mode = []
automode_drop_nick (c ∷ channels) nick mode =
    record c { mode_queue = automode_drop_channel c.mode_queue (some nick) mode }
    ∷ automode_drop_nick channels nick mode

abbrev pub mask_of : ℕ → Text → Text → Text → Text
mask_of mode nick hostname channel = mode ∷ b':' ∷ (nick ++ b'!' ∷ (hostname ++ b'/' ∷ channel))

-- The turn of one mode: the queue and the number of queued modes; `none` is a fault of `is_perm`.
unfoldable pub queue_mode :
    Ident
    → PermList
    → Text
    → Text
    → Text
    → ℕ
    → List AutomodeType × ℕ
    → Option (List AutomodeType × ℕ)
unfolding is_perm automode_lookup
queue_mode status automodelist nick hostname channel mode (queue, automodes) =
    elim (is_perm status automodelist (some (mask_of mode nick hostname channel))) [
      | none ↦ none
      | some zero ↦ some (queue, automodes)
      | some (suc n) ↦
          if automode_lookup nick queue mode
          then some (queue, automodes)
          else some (queue ++ record { nick = nick; mode = mode } ∷ [], suc automodes)
    ]

abbrev pub and_then :
    Option (List AutomodeType × ℕ)
    → (List AutomodeType × ℕ → Option (List AutomodeType × ℕ))
    → Option (List AutomodeType × ℕ)
and_then none f = none
and_then (some q) f = f q

unfoldable pub automode_queue :
    Ident → PermList → Text → Text → Text → List AutomodeType × ℕ → Option (List AutomodeType × ℕ)
unfolding queue_mode
automode_queue status automodelist nick hostname channel q =
    and_then (queue_mode status automodelist nick hostname channel b'o' q)
      (queue_mode status automodelist nick hostname channel b'v')

abbrev pub mode_message : Text → Text → Text → Text
mode_message name modes nicks = codes "MODE " ++ (name ++ b' ' ∷ b'+' ∷ (modes ++ nicks))

-- The messages for a queue, with the modes and nicks that were gathered since the last one.
unfoldable pub commit : Text → Text → Text → List AutomodeType → List Text
commit name modes nicks [] = if length modes == 0 then [] else mode_message name modes nicks ∷ []
commit name modes nicks (e ∷ queue) =
    let modes' = modes ++ e.mode ∷ [] in
    let nicks' = nicks ++ b' ' ∷ e.nick in
    let flushed = commit name [] [] queue in
    let more = commit name modes' nicks' queue in
    if length modes' == 3 then mode_message name modes' nicks' ∷ flushed else more

unfoldable pub write_all : Flood → List Text → Flood
unfolding irc_write_head
write_all st [] = st
write_all st (m ∷ messages) = write_all (irc_write_head st m) messages

abbrev pub is_one : ℤ → Bool
is_one (pos n) = n == 1
is_one (negsuc n) = false

-- The empty queue, and the number of queued modes.
abbrev pub automode_clear : List AutomodeType → ℕ → List AutomodeType × ℕ
automode_clear queue automodes = ([], automodes - length queue)

-- The walk over the active channels, with the number of queued modes.
unfoldable pub automode_do : List ModeChannel → ℕ → Flood → List ModeChannel × ℕ × Flood
unfolding commit write_all
automode_do [] automodes st = ([], automodes, st)
automode_do (c ∷ channels) automodes st =
    let (cleared, fewer) = automode_clear c.mode_queue automodes in
    let (left, n, st') =
      automode_do channels fewer (write_all st (commit c.name [] [] c.mode_queue)) in
    let (left', n', st'') = automode_do channels automodes st in
    if is_one c.oper
    then (record c { mode_queue = cleared } ∷ left, n, st')
    else (c ∷ left', n', st'')
