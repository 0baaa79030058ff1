-- ===== src/Server/Heard.antt =====
-- src/server.c: `server_reply`, what others and miau itself do on channels. Parameters that `strtok` gave
-- are not empty, so that the colon in front of them can be skipped.
use miau.Prelude.{
  ℕ, suc, ◌&&◌, Option, none, some, List, [], ◌∷◌, Text, ◌==◌, if◌then◌else◌, length, take, drop,
  head0,
}
use miau.Prelude.Strings.{◌>>=◌, tokens_by}
use miau.Common.{same_nocase}
use miau.Tools.{pos}
use miau.Automode.{AutomodeType, any_mode, automode_drop_channel, automode_queue}
use miau.Channels.{
  ChannelType, list_active, channel_find, channel_add, channel_topic, channel_when, is_on,
}
use miau.Qlog.Leave.{channel_rem_checked}
use miau.Server.Reply.{
  LogType, log_join, log_part, log_quit, log_mode, log_nick, log_misc, Notice, killed, kicked,
  entry, entry_all, Serving, ReplyCfg, cut_at, did, write_channel, write_queue, active, write_found,
  no_topic, topic_is, topic_who_when, moded_channel, mode_is, names_are, join_failed,
}

-- The nick and the host that a line comes from.
unfoldable pub source : Text → Text × Text
unfolding pos
source origin = elim (pos origin b'!') [
  | none ↦ (origin, origin)
  | some i ↦ (take i origin, drop (suc i) origin)
]

abbrev pub unprefixed : Text → Text
unprefixed s = if head0 s == b':' then drop 1 s else s

unfoldable pub log_line : ReplyCfg → LogType → ChannelType → List Text → Serving → Serving
log_line cfg kind c args st = if cfg.has_log c kind then did (entry kind c.address args) st else st

-- `channel_rem` for an active channel, whose queue of modes is dropped as well.
unfoldable pub leave : ReplyCfg → ChannelType → Serving → Serving
unfolding channel_rem_checked write_queue automode_drop_channel
leave cfg c st =
    let gone =
      channel_rem_checked cfg.now cfg.qloglength cfg.qlog st.channels (some c) list_active in
    write_queue c.address (automode_drop_channel (st.queues c.address) none any_mode)
      (record st { channels = gone })

unfoldable pub nick_changed : ReplyCfg → Text → Text → Serving → Serving
nick_changed cfg nick param1 st =
    let new = drop 1 param1 in
    let named = record st { nickname = new } in
    let mine =
      if same_nocase new cfg.first_nick
      then record (did (miau.Server.Reply.got_nick new) named) { got_nick = 1; getting_nick = 0 }
      else record named { got_nick = 0 } in
    did (entry_all log_nick (some nick ∷ some new ∷ []))
      (if same_nocase st.nickname nick then mine else st)

-- What is behind the colon in front of a reason; without one, the byte behind the terminator is read.
abbrev pub reason_of : Text → Option Text
reason_of [] = none
reason_of (c ∷ s) = some s

unfoldable pub kick_logged :
    ReplyCfg → Text → ChannelType → Option (Text × Text) → Serving → Option Serving
kick_logged cfg nick c none st = some st
kick_logged cfg nick c (some (target, rest)) st =
    if cfg.has_log c log_part
    then reason_of rest
      >>= (λ why. some (did (entry log_part c.address (target ∷ nick ∷ why ∷ [])) st))
    else some st

unfoldable pub kick_me :
    ReplyCfg → Text → Text → ChannelType → Option (Text × Text) → Serving → Option Serving
unfolding leave
kick_me cfg nick channel c none st = some st
kick_me cfg nick channel c (some (target, rest)) st =
    if same_nocase st.nickname target && length st.nickname == length target
    then reason_of rest
      >>= (λ why. some (leave cfg c (did (kicked (nick ∷ channel ∷ why ∷ [])) st)))
    else some st

unfoldable pub kicked_from : ReplyCfg → Text → Text → ChannelType → Text → Serving → Option Serving
unfolding pos kick_logged kick_me
kicked_from cfg nick channel c param2 st =
    let parts = cut_at (pos param2 b' ') param2 in
    kick_logged cfg nick c parts st >>= kick_me cfg nick channel c parts

unfoldable pub kick : ReplyCfg → Text → Text → Option Text → Serving → Option Serving
unfolding channel_find kicked_from
kick cfg nick channel param2 st = elim (active channel st) [
  | none ↦ some st
  | some c ↦ param2 >>= (λ text. kicked_from cfg nick channel c text st)
]

-- Someone else is on the channel now, and waits for the modes that the list gives.
unfoldable pub joined_other : ReplyCfg → Text → Text → ChannelType → Serving → Option Serving
unfolding automode_queue write_queue
joined_other cfg nick hostname c st =
    if same_nocase nick st.nickname
    then some st
    else automode_queue st.ident cfg.automodelist nick hostname c.name
        (st.queues c.address, st.automodes)
      >>= (λ (r : List AutomodeType × ℕ).
          some (write_queue c.address r.0 (record st { automodes = r.1 })))

unfoldable pub joined : ReplyCfg → Text → Text → Option ChannelType → Serving → Option Serving
unfolding joined_other log_line
joined cfg nick hostname none st = some st
joined cfg nick hostname (some c) st =
    joined_other cfg nick hostname c st
    >>= (λ after. some (log_line cfg log_join c (nick ∷ hostname ∷ c.simple_name ∷ []) after))

-- miau itself is on the channel from now on.
unfoldable pub enter : Text → Text → Option Text → Serving → Serving
unfolding channel_add
enter nick channel key st =
    if same_nocase st.nickname nick
    then record st { channels = (channel_add st.channels channel key list_active).1 }
    else st

unfoldable pub join : ReplyCfg → Text → Text → Text → Option Text → Serving → Option Serving
unfolding channel_find enter joined
join cfg nick hostname param1 param2 st =
    let channel = unprefixed param1 in
    let there = enter nick channel param2 st in
    joined cfg nick hostname (active channel there) there

abbrev pub text_of : Option Text → Text
text_of none = []
text_of (some s) = drop 1 s

-- What becomes of the modes that a nick waits for, and of the log, before miau itself is gone.
unfoldable pub part_told : ReplyCfg → Text → Option Text → ChannelType → Serving → Serving
unfolding automode_drop_channel write_queue log_line
part_told cfg nick param2 c st =
    log_line cfg log_part c (nick ∷ c.simple_name ∷ text_of param2 ∷ [])
      (write_queue c.address (automode_drop_channel (st.queues c.address) (some nick) any_mode) st)

unfoldable pub part : ReplyCfg → Text → Text → Option Text → Serving → Serving
unfolding channel_find part_told leave
part cfg nick param1 param2 st = elim (active (unprefixed param1) st) [
  | none ↦ st
  | some c ↦
      let told = part_told cfg nick param2 c st in
      if same_nocase nick st.nickname then leave cfg c told else told
]

unfoldable pub quit : Text → Text → Option Text → Serving → Serving
unfolding is_on automode_drop_channel
quit nick param1 param2 st =
    did (entry_all log_quit (some nick ∷ some (drop 1 param1) ∷ some (b' ' ∷ []) ∷ param2 ∷ []))
      (record st {
        queues = λ a.
            if is_on a st.channels.active_channels
            then automode_drop_channel (st.queues a) (some nick) any_mode
            else st.queues a;
      })

unfoldable pub kill : Text → Serving → Serving
kill nick st =
    let told = if same_nocase st.nickname nick then did (killed nick) st else st in
    record told { pass = 0 }

-- The host that the server knows miau by, learnt from a change of its own modes.
abbrev pub host_learnt : Option ℕ → Text → Text → Serving → Serving
host_learnt none hostname param1 st = st
host_learnt (some i) hostname param1 st =
    if st.ident.goodhostname == 0 && same_nocase param1 st.nickname
    then record st { ident = record { idhostname = hostname; goodhostname = suc i } }
    else st

unfoldable pub mode : ReplyCfg → Text → Text → Text → Option Text → Serving → Option Serving
unfolding pos channel_find moded_channel log_line
mode cfg nick hostname param1 param2 st =
    let learnt = host_learnt (pos hostname b'@') hostname param1 st in
    elim (active param1 learnt) [
      | none ↦ some learnt
      | some c ↦ param2 >>= (λ modes.
          moded_channel modes (some c) learnt
          >>= (λ after. some (log_line cfg log_mode c (nick ∷ modes ∷ []) after)))
    ]

-- The new topic is logged without its colon, and read through for that.
unfoldable pub topic_logged : ReplyCfg → Text → ChannelType → Option Text → Serving → Option Serving
topic_logged cfg nick c param2 st =
    if cfg.has_log c log_misc
    then param2 >>= (λ text. some (did (entry log_misc c.address (nick ∷ drop 1 text ∷ [])) st))
    else some st

unfoldable pub topic : ReplyCfg → Text → Text → Option Text → Serving → Option Serving
unfolding channel_find channel_topic channel_when write_channel topic_logged
topic cfg nick param1 param2 st = elim (active param1 st) [
  | none ↦ some st
  | some c ↦
      topic_logged cfg nick c param2
        (write_channel (channel_when (channel_topic c param2) nick cfg.stamp) st)
]

-- The lines that are modelled: the labels of the switch.
pub data Numeric : Type 0 where
  rpl_notopic rpl_topic rpl_topicwho rpl_channelmodeis rpl_namreply err_join : Numeric

pub data Heard : Type 0 where
  reply : Numeric → Heard
  cmd_nick cmd_pong cmd_kick cmd_join cmd_part cmd_quit cmd_kill cmd_mode cmd_topic : Heard

-- A numeric reply, with its second parameter, which all of them read through.
unfoldable pub numeric : Numeric → Text → Serving → Option Serving
unfolding pos no_topic topic_is topic_who_when mode_is names_are join_failed
numeric rpl_notopic param2 st = some (no_topic (cut_at (pos param2 b' ') param2) st)
numeric rpl_topic param2 st = some (topic_is (cut_at (pos param2 b' ') param2) st)
numeric rpl_topicwho param2 st = elim (cut_at (pos param2 b' ') param2) as (λ _. Option Serving) [
  | none ↦ some st
  | some (channel, rest) ↦ some (topic_who_when channel (cut_at (pos rest b' ') rest) st)
]
numeric rpl_channelmodeis param2 st = mode_is (cut_at (pos param2 b' ') param2) st
numeric rpl_namreply param2 st = some (names_are (cut_at (pos param2 b' ') param2) st)
numeric err_join param2 st = some (join_failed (tokens_by b' ' [] param2) st)

-- `server_reply` for a line with a first parameter.
unfoldable pub server_reply :
    ReplyCfg → Heard → Text → Text → Option Text → Serving → Option Serving
unfolding source nick_changed kick join part quit kill mode topic numeric
server_reply cfg cmd_nick origin param1 param2 st =
    some (nick_changed cfg (source origin).0 param1 st)
server_reply cfg cmd_pong origin param1 param2 st =
    some (record st { ping_got = suc st.ping_got; pass = 0 })
server_reply cfg cmd_join origin param1 param2 st =
    join cfg (source origin).0 (source origin).1 param1 param2 st
server_reply cfg cmd_part origin param1 param2 st =
    some (part cfg (source origin).0 param1 param2 st)
server_reply cfg cmd_quit origin param1 param2 st = some (quit (source origin).0 param1 param2 st)
server_reply cfg cmd_kick origin param1 param2 st = kick cfg (source origin).0 param1 param2 st
server_reply cfg cmd_mode origin param1 param2 st =
    mode cfg (source origin).0 (source origin).1 param1 param2 st
server_reply cfg cmd_topic origin param1 param2 st = topic cfg (source origin).0 param1 param2 st
server_reply cfg cmd_kill origin param1 param2 st = some (kill (source origin).0 st)
server_reply cfg (reply n) origin param1 param2 st = param2 >>= (λ text. numeric n text st)
