-- ===== src/Qlog/Examples.antt =====
-- Runs of the quick log, and the theorems at concrete logs.
use miau.Prelude.{
  ◌*◌, ◌≡◌, refl, true, false, some, none, List, [], ◌∷◌, ◌++◌, map, Text, arith, codes, length,
  if◌then◌else◌,
}
use miau.Prelude.Int.{pos}
use miau.Prelude.Strings.{minus}
use miau.Commands.{command_setup}
use miau.Channels.{ChannelType, Channels, new_channel, list_active}
use miau.Qlog.{
  QlogEntry, InboxLine, Log, Qlog, qlog_flush, qlog_check, on_both, set_hasqlog, oldest_of,
}
use miau.Qlog.Flush.{newer}
use miau.Qlog.Window.{Write, write_all, entry_of, empty_log, InTime, write_all-newer}
use miau.Qlog.Marks.{marked, qlog_check-marked}
use miau.Qlog.Replay.{ts_none, ts_end, ReplayCfg, is_my_quit, qlog_add_timestamp, qlog_replay}
use miau.Qlog.Shown.{shown, qlog_replay-shown}
use miau.Qlog.Leave.{
  lookup, left_behind, refreshed, channel_rem_checked, channel_rem_checked-marked,
}

abbrev hello : QlogEntry
hello = record { text = codes ":bo!b@h PRIVMSG me :hello"; timestamp = 100; privmsg = 1 }

abbrev talk : QlogEntry
talk = record { text = codes ":bo!b@h PRIVMSG #a :talk"; timestamp = 200; privmsg = 0 }

abbrev log : Log
log = hello ∷ talk ∷ []

abbrev logged : Qlog
logged = record { qlog = log; inbox = some [] }

-- The private message goes to the inbox, with its sender and its text.
flushed_hello :
    qlog_flush logged (pos 150) 1
    ≡ some (record {
      qlog = talk ∷ [];
      inbox = some (record { when = 100; sender = codes "bo!b@h"; payload = codes "hello" } ∷ []);
    })
unfolding qlog_flush
flushed_hello = refl

abbrev lines : List Write
lines =
    record { time = 10; privmsg = 0; text = codes ":a!b@c JOIN :#a" }
    ∷ record { time = 90; privmsg = 0; text = codes ":a!b@c PART #a" }
    ∷ []

abbrev last_line : Write
last_line = record { time = 100; privmsg = 1; text = codes ":a!b@c PRIVMSG me :hi" }

write_all-newer_example :
    (st' : Qlog) × (write_all 1 (empty_log none) (lines ++ last_line ∷ []) ≡ some st')
    × (st'.qlog ≡ newer (minus 100 (1 * 60)) (map entry_of lines) ++ entry_of last_line ∷ [])
unfolding InTime
write_all-newer_example =
    write_all-newer 1 none lines last_line (omega arith, (omega arith, (omega arith, tt)))
      (λ e c. ground arith, (λ e c. ground arith, (λ e c. ground arith, tt)))

abbrev chans : Channels
chans = record {
  active_channels = new_channel 1 (codes "#a") none ∷ new_channel 2 (codes "#b") none ∷ [];
  passive_channels = [];
  old_channels = [];
  next = 3;
}

qlog_check-marked_example :
    qlog_check 250 log 60 chans
    ≡ on_both (λ c. set_hasqlog (marked chans (oldest_of 250 60) log c.address) c) chans
qlog_check-marked_example = qlog_check-marked 250 60 log chans

marks_a :
    map (λ (c : ChannelType). c.hasqlog) (qlog_check 250 log 60 chans).active_channels
    ≡ true ∷ false ∷ []
unfolding qlog_check miau.Common.same_nocase miau.Tools.lowcase miau.Tools.to_lower
    miau.Channels.channel_find miau.Tools.pos miau.Qlog.third_word
marks_a = refl

channel_rem_checked-marked_example :
    let flags = marked chans (oldest_of 250 (1 * 60)) log in
    channel_rem_checked 250 1 log chans (some (new_channel 1 (codes "#a") none)) list_active ≡ (
      if flags 1
      then record (left_behind flags chans 1) {
        old_channels = refreshed flags (new_channel 1 (codes "#a") none) ∷ [];
      }
      else left_behind flags chans 1)
unfolding lookup
channel_rem_checked-marked_example =
    channel_rem_checked-marked 250 1 log chans (new_channel 1 (codes "#a") none) refl

abbrev quit_line : Text
quit_line = codes ":me!u@h QUIT :bye"

-- A line to a channel called #QUIT is taken for a quit.
talk_of_quit : is_my_quit (codes "me") (codes ":me!u@h PRIVMSG #QUIT :hi") ≡ true
unfolding is_my_quit
talk_of_quit = refl

abbrev cfg : ReplayCfg
cfg = record {
  timestamp = ts_none;
  qlog_no_my_quit = 1;
  nickname = codes "me";
  table = command_setup;
  clock = λ t. codes "[00:00:00]";
}

qlog_replay-shown_example :
    qlog_replay cfg 250 log 60
    ≡ (map (λ (e : QlogEntry). e.text) (shown cfg (oldest_of 250 60) log), log)
qlog_replay-shown_example = qlog_replay-shown cfg 250 log 60 refl

abbrev action : Text
action = codes ":a!b@c PRIVMSG #a :" ++ 1 ∷ codes "ACTION waves" ++ 1 ∷ []

-- The closing byte of a CTCP message is lost from the log with the first replay.
loses_ctcp : length (qlog_add_timestamp command_setup ts_end (codes "[00:00:00]") action).1 ≡ 32
unfolding qlog_add_timestamp command_setup miau.Commands.command_hash miau.Commands.find_entry
    miau.Common.same_nocase miau.Tools.lowcase miau.Tools.to_lower
loses_ctcp = refl

loses_one : length action ≡ 33
loses_one = refl
