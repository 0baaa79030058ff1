-- ===== src/Qlog/Replay.antt =====
-- src/qlog.c: the replay of the quick log to a client. What `strftime` gives for a time is a parameter,
-- `clock`. A replay can change the texts of the log, so it gives the log back with what it sends.
use miau.Prelude.{
  ℕ, suc, ◌+◌, ◌-◌, Bool, true, false, ◌&&◌, ◌||◌, Option, none, some, List, [], ◌∷◌, ◌++◌, Text,
  codes, ltb, ◌==◌, if◌then◌else◌, length, get_or, take, drop,
}
use miau.Prelude.Strings.{strstr}
use miau.Tools.{pos, nextword}
use miau.Common.{strncmp_zero}
use miau.Commands.{CmdHash, command_find}
use miau.Irc.{irc_msglen}
use miau.Channels.{ChannelType}
use miau.Qlog.{QlogEntry, Log, oldest_of}

abbrev pub tmp_len : ℕ
tmp_len = 64

-- The tests on the places of `QUIT :` and of the second colon, counted from the text's beginning.
unfoldable pub quit_place : Text → Bool
unfolding pos
quit_place msg = elim (strstr msg (codes "QUIT :")) [
  | none ↦ false
  | some quit ↦ elim (pos (drop 1 msg) b':') [
    | none ↦ false
    | some end ↦ if ltb (suc end) quit then false else true
  ]
]

-- `snprintf` keeps 63 characters of the nick with its `!`, and gives the length that it would need.
unfoldable pub is_my_quit : Text → Text → Bool
unfolding quit_place
is_my_quit nickname [] = false
is_my_quit nickname (c ∷ msg) =
    let full = nickname ++ b'!' ∷ [] in
    if c == b':'
    then if strncmp_zero msg (take (tmp_len - 1) full) (length full)
      then quit_place (c ∷ msg)
      else false
    else false

pub data Timestamp : Type 0 where
  ts_none ts_beginning ts_end : Timestamp

abbrev pub tslen : ℕ
tslen = 11

-- The commands whose lines get a time.
unfoldable pub has_time : ℕ → Bool
has_time cmd =
    cmd == 0x0200
    || cmd == 0x0400
    || cmd == 0x1000
    || cmd == 0x0020
    || cmd == 0x0008
    || cmd == 0x0100

-- Whether the second word of a line is one of them.
unfoldable pub gets_time : CmdHash → Text → Bool
unfolding nextword pos command_find has_time
gets_time table text = elim (nextword text) [
  | none ↦ false
  | some p ↦ elim (pos p b' ') [
    | none ↦ false
    | some i ↦ if ltb i tslen then has_time (command_find table (take i p)) else false
  ]
]

-- Where TS_BEGINNING puts the time: behind the colon, or behind the first word of a CTCP message.
unfoldable pub time_place : Text → Option ℕ
unfolding pos
time_place text = elim (pos (drop 1 text) b':') [
  | none ↦ none
  | some j ↦
      let p = drop (suc j) text in
      if get_or p 1 0 == 0
      then none
      else if get_or p 1 0 == 1
      then elim (pos p b' ') [ none ↦ none | some k ↦ some (suc j + k) ]
      else some (suc j)
]

-- The buffer takes `IRC_MSGLEN` characters with the terminator.
abbrev pub in_buffer : Text → Text
in_buffer text = take (irc_msglen - 1) text

-- What is sent, and the text that the entry has afterwards.
unfoldable pub at_beginning : Text → Text → Text × Text
unfolding time_place
at_beginning stamp text = elim (time_place text) [
  | none ↦ (text, text)
  | some i ↦ (in_buffer (take (suc i) text ++ stamp ++ b' ' ∷ drop (suc i) text), text)
]

unfoldable pub at_end : Text → Text → Text × Text
at_end stamp text =
    let cut = take (length text - 1) text in
    if get_or text (length text - 1) 0 == 1
    then (in_buffer (cut ++ b' ' ∷ stamp ++ 1 ∷ []), cut)
    else (in_buffer (text ++ b' ' ∷ stamp), text)

unfoldable pub qlog_add_timestamp : CmdHash → Timestamp → Text → Text → Text × Text
unfolding gets_time at_beginning at_end
qlog_add_timestamp table ts_none stamp text = (text, text)
qlog_add_timestamp table ts_beginning stamp text =
    if gets_time table text then at_beginning stamp text else (text, text)
qlog_add_timestamp table ts_end stamp text =
    if gets_time table text then at_end stamp text else (text, text)

-- What a replay reads of the configuration and the state.
pub record ReplayCfg : Type 0 where
  pub timestamp : Timestamp
  pub qlog_no_my_quit : ℕ
  pub nickname : Text
  pub table : CmdHash
  pub clock : ℕ → Text

-- Whether an entry is left out: it is too old, or a quit of the client's own.
unfoldable pub skips : ReplayCfg → ℕ → QlogEntry → Bool
unfolding is_my_quit
skips cfg oldest entry =
    ltb entry.timestamp oldest || (cfg.qlog_no_my_quit == 1 && is_my_quit cfg.nickname entry.text)

abbrev pub sent_first : Text → List Text × Log → List Text × Log
sent_first out (lines, log) = (out ∷ lines, log)

abbrev pub kept_first : QlogEntry → List Text × Log → List Text × Log
kept_first entry (lines, log) = (lines, entry ∷ log)

unfoldable pub replay : ReplayCfg → ℕ → Log → List Text × Log
unfolding skips qlog_add_timestamp
replay cfg oldest [] = ([], [])
replay cfg oldest (entry ∷ log) =
    let rest = replay cfg oldest log in
    let (out, text) =
      qlog_add_timestamp cfg.table cfg.timestamp (cfg.clock entry.timestamp) entry.text in
    if skips cfg oldest entry
    then kept_first entry rest
    else sent_first out (kept_first (record entry { text = text }) rest)

unfoldable pub qlog_replay : ReplayCfg → ℕ → Log → ℕ → List Text × Log
unfolding replay
qlog_replay cfg now log oldest = replay cfg (oldest_of now oldest) log

-- The notices before and after the replay: one for each active channel that has a quick log.
unfoldable pub notices : Text → Text → List ChannelType → List Text
notices nickname what [] = []
notices nickname what (chan ∷ channels) =
    let rest = notices nickname what channels in
    if chan.hasqlog
    then (codes ":" ++ nickname ++ codes " NOTICE " ++ chan.name ++ codes " :" ++ what) ∷ rest
    else rest
