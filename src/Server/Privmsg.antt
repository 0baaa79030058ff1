-- ===== src/Server/Privmsg.antt =====
-- src/server.c: the ways of a message, from `parse_privmsg` on.
use miau.Prelude.{
  ℕ, ◌+◌, not, ◌&&◌, ◌||◌, Option, none, some, ◌∷◌, ◌++◌, Text, ◌==◌, if◌then◌else◌, drop, head0,
}
use miau.Prelude.Strings.{◌>>=◌}
use miau.Common.{same_nocase}
use miau.Perm.{is_perm}
use miau.Channels.{ChannelType, list_active, channel_find, channel_is_name}
use miau.Server.Talk.{
  cmd_privmsg_number, mincommandvalue, TalkCfg, Talk, chanlogged, prepared, did, privlog_in,
  parse_msg_me_ctcp, remote, forward,
}

-- A message to miau's nick that is not ignored.
unfoldable pub heard_by_me : TalkCfg → Text → Text → Text → Text → Text → ℕ → Talk → Talk
unfolding privlog_in parse_msg_me_ctcp remote forward
heard_by_me cfg origin nick hostname param1 param2 command st =
    let noted = privlog_in cfg nick command (drop 1 param2) st in
    let plain = if cfg.forwards then forward origin (drop 1 param2) noted else noted in
    if head0 (drop 1 param2) == 1
    then parse_msg_me_ctcp cfg origin nick hostname param1 param2 command noted
    else elim (remote cfg nick param2) [ none ↦ plain | some pass ↦ record noted { pass = pass } ]

-- The result is a fault where `is_perm` has one.
unfoldable pub parse_msg_me : TalkCfg → Text → Text → Text → Text → Text → ℕ → Talk → Option Talk
unfolding is_perm heard_by_me
parse_msg_me cfg origin nick hostname param1 param2 command st =
    is_perm cfg.ident cfg.ignorelist (some origin) >>= (λ ignored.
      some (
        if ignored == 0 then heard_by_me cfg origin nick hostname param1 param2 command st else st))

-- A message to the operators of a channel has a sign in front of the channel's name.
unfoldable pub wallop : Text → Text
unfolding channel_is_name
wallop param1 =
    let c = head0 param1 in
    if (c == b'@' || c == b'%' || c == b'+') && not (channel_is_name (some (drop 1 param1)) == 0)
    then drop 1 param1
    else param1

abbrev pub or_else : Option ChannelType → Option ChannelType → Option ChannelType
or_else none c = c
or_else (some d) c = some d

unfoldable pub chan_logged : TalkCfg → Text → Text → ℕ → Option ChannelType → Talk → Talk
chan_logged cfg nick text command none st = st
chan_logged cfg nick text command (some c) st =
    if cfg.has_log c
    then elim (cfg.log_prepare_entry nick text) [
      | none ↦
          did (chanlogged c.address (command == cmd_privmsg_number + mincommandvalue) nick text) st
      | some line ↦ did (prepared c.address line) st
    ]
    else st

unfoldable pub parse_msg_chan : TalkCfg → Text → Text → Text → ℕ → Talk → Talk
unfolding channel_find wallop chan_logged
parse_msg_chan cfg nick param1 param2 command st =
    chan_logged cfg nick (drop 1 param2) command
      (or_else (channel_find cfg.channels (wallop param1) list_active)
        (channel_find cfg.channels param1 list_active))
      st

-- Whether the message is private, and what it does.
unfoldable pub parse_privmsg :
    TalkCfg → Text → Option Text → Text → Text → ℕ → Talk → Option (ℕ × Talk)
unfolding parse_msg_me parse_msg_chan
parse_privmsg cfg param1 none nick hostname command st = some (0, st)
parse_privmsg cfg param1 (some param2) nick hostname command st =
    if same_nocase param1 cfg.nickname
    then parse_msg_me cfg (nick ++ b'!' ∷ hostname) nick hostname param1 param2 command st
      >>= (λ after. some (1, after))
    else some (0, parse_msg_chan cfg nick param1 param2 command st)
