-- ===== src/Qlog.antt =====
-- src/qlog.c: the quick log of lines that clients missed. The list of src/list.c is a List of entries
-- here, the inbox file a list of lines. Times are seconds; -1 and 0 are the numbers that the code uses.
pub mod Flush
pub mod Window
pub mod Marks
pub mod Replay
pub mod Quits
pub mod Shown
pub mod Leave
mod Examples
use miau.Prelude.{
  ℕ, zero, suc, ◌+◌, ◌-◌, ◌*◌, Bool, true, false, not, ◌&&◌, ◌||◌, Option, none, some, List, [],
  ◌∷◌, ◌++◌, map, Text, codes, ltb, leb, ◌==◌, if◌then◌else◌, length, take, drop, head0,
}
use miau.Prelude.Int.{ℤ, pos, above, below}
use miau.Prelude.Strings.{strchr, starts, strstr, run_of, run_not, minus, ◌>>=◌}
use miau.Tools.{nextword}
use miau.Irc.{irc_msglen}
use miau.Channels.{ChannelType, Channels, list_active, list_old, channel_find}

pub record QlogEntry : Type 0 where
  pub text : Text
  pub timestamp : ℕ
  pub privmsg : ℕ

-- A line of the inbox: when, who and what.
pub record InboxLine : Type 0 where
  pub when : ℕ
  pub sender : Text
  pub payload : Text

abbrev pub Log : Type 0
Log = List QlogEntry

-- The quick log and the inbox, which is NULL where it could not be opened.
pub record Qlog : Type 0 where
  pub qlog : Log
  pub inbox : Option (List InboxLine)

-- Where `strtok` with a space ends the first word: behind the spaces at the front.
unfoldable pub word_end : Text → ℕ
word_end s = let spaces = run_of b' ' s in spaces + run_not b' ' (drop spaces s)

-- What `qlog_flush` makes of a private message: nothing where the line is not valid. The text of
-- the message begins at index `i`, with a space.
unfoldable pub inbox_line : Text → ℕ → ℕ → Option InboxLine
unfolding word_end
inbox_line text when i =
    let end = word_end text in
    let shown = if ltb i end then take end text else text in
    if end == i
    then none
    else some
        (record { when = when; sender = drop 1 (take end text); payload = drop (i + 2) shown })

-- The lines that an entry adds to the inbox, one at most. `none` is a fault: the search for the
-- message begins behind the end of an empty text.
unfoldable pub moved_lines : ℕ → QlogEntry → Option (List InboxLine)
unfolding inbox_line
moved_lines move_to_inbox entry =
    if entry.privmsg == 1 && move_to_inbox == 1
    then elim entry.text [
      | [] ↦ none
      | c ∷ s ↦ elim (strstr s (codes " :")) [
        | none ↦ some []
        | some i ↦ elim (inbox_line (c ∷ s) entry.timestamp (suc i)) [
          | none ↦ some []
          | some line ↦ some (line ∷ [])
        ]
      ]
    ]
    else some []

abbrev pub written_to : Option (List InboxLine) → List InboxLine → Option (List InboxLine)
written_to none lines = none
written_to (some old) lines = some (old ++ lines)

-- The loop of `qlog_flush`. The times are signed, so `oldest` can be negative.
unfoldable pub flush : ℤ → ℕ → Log → Option (List InboxLine) → Option Qlog
unfolding moved_lines
flush oldest move [] inbox = some (record { qlog = []; inbox = inbox })
flush oldest move (entry ∷ rest) inbox =
    if below oldest entry.timestamp
    then some (record { qlog = entry ∷ rest; inbox = inbox })
    else elim (moved_lines move entry) [
      | none ↦ none
      | some lines ↦ flush oldest move rest (written_to inbox lines)
    ]

unfoldable pub qlog_flush : Qlog → ℤ → ℕ → Option Qlog
unfolding flush
qlog_flush st oldest move_to_inbox = flush oldest move_to_inbox st.qlog st.inbox

-- The text that `vsnprintf` gives, cut to the size that it is called with.
abbrev pub cut_line : Text → Text
cut_line text = take (irc_msglen - 3) text

abbrev pub new_entry : ℕ → ℕ → Text → QlogEntry
new_entry now privmsg text = record { text = cut_line text; timestamp = now; privmsg = privmsg }

-- `qlog_write` at the time `now`; `qloglength` is in minutes.
unfoldable pub qlog_write : ℕ → ℕ → Qlog → ℕ → Text → Option Qlog
unfolding qlog_flush
qlog_write qloglength now st privmsg text = elim (qlog_flush st (minus now (qloglength * 60)) 1) [
  | none ↦ none
  | some left ↦ some (record left { qlog = left.qlog ++ new_entry now privmsg text ∷ [] })
]

-- `qlog_get_channel`: the third word of a line, which a space must end.
unfoldable pub third_word : Text → Option Text
unfolding nextword
third_word msg = do
  rest ← nextword msg
  word ← nextword rest
  end ← miau.Tools.pos word b' '
  some (take end word)

unfoldable pub qlog_get_channel : Channels → Text → Option ChannelType
unfolding channel_find
qlog_get_channel st msg = elim (third_word msg) [
  | none ↦ none
  | some t ↦ elim (channel_find st t list_active) [
    | some chan ↦ some chan
    | none ↦ channel_find st t list_old
  ]
]

-- A write to `hasqlog` of one structure, on the two lists that it can be on.
unfoldable pub set_hasqlog : Bool → ChannelType → ChannelType
set_hasqlog v chan = record chan { hasqlog = v }

unfoldable pub mark_one : ℕ → ChannelType → ChannelType
unfolding set_hasqlog
mark_one a chan = if chan.address == a then set_hasqlog true chan else chan

unfoldable pub on_both : (ChannelType → ChannelType) → Channels → Channels
on_both f st = record st {
  active_channels = map f st.active_channels;
  old_channels = map f st.old_channels;
}

-- What a line does to the channels: the age first, then whether it is a private message.
unfoldable pub mark_line : ℕ → QlogEntry → Channels → Channels
unfolding qlog_get_channel mark_one on_both
mark_line oldest entry st =
    if ltb entry.timestamp oldest
    then st
    else if entry.privmsg == 0
    then elim (qlog_get_channel st entry.text) [
      | none ↦ st
      | some chan ↦ on_both (mark_one chan.address) st
    ]
    else st

unfoldable pub mark_lines : ℕ → Log → Channels → Channels
unfolding mark_line
mark_lines oldest [] st = st
mark_lines oldest (entry ∷ rest) st = mark_lines oldest rest (mark_line oldest entry st)

-- The oldest time of interest: no timestamp is negative, so the difference stops at 0.
abbrev pub oldest_of : ℕ → ℕ → ℕ
oldest_of now age = if age == 0 then 0 else now - age

unfoldable pub qlog_check : ℕ → Log → ℕ → Channels → Channels
unfolding on_both set_hasqlog mark_lines
qlog_check now log age st = mark_lines (oldest_of now age) log (on_both (set_hasqlog false) st)
