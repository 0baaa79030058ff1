-- ===== src/Client/Message.antt =====
-- src/client.c: messages and what is passed on to the server.
use miau.Prelude.{
  ℕ, ◌-◌, Bool, true, false, not, ◌||◌, Option, none, some, ◌∷◌, ◌++◌, Text, codes, ltb, ◌==◌,
  if◌then◌else◌, length, take, drop,
}
use miau.Prelude.Strings.{strchr}
use miau.Common.{xstrcmp, xstrncmp}
use miau.Tools.{upcase}
use miau.Irc.{irc_msglen}
use miau.Channels.{ChannelType, list_active, channel_find, channel_is_name}
use miau.Client.{server, client, others, quick_log, logged, ClientCfg, Session, did, user}

-- Whether the line goes on to the server, and the state.
abbrev pub Passed : Type 0
Passed = ℕ × Session

unfoldable pub cmd_away : ClientCfg → Text → Option Text → Session → Passed
cmd_away cfg orig none st = (1, record st { awaymsg = none; away = false; custom = false })
cmd_away cfg orig (some par0) st = elim (strchr orig b' ') as (λ _. Passed) [
  | none ↦ (1, st)
  | some space ↦
      let t = drop 2 space in
      let away_now : Passed = (1, record st { awaymsg = some t; away = true; custom = true }) in
      let not_away : Passed = (1, record st { awaymsg = none; away = false; custom = false }) in
      if cfg.emptyaway || not (length t == 0) then away_now else not_away
]

-- A DCC request is given to the bouncer, which can change it; other CTCP messages pass.
unfoldable pub cmd_privmsg_ctcp : ClientCfg → Text → Text → Session → Passed
unfolding upcase xstrncmp
cmd_privmsg_ctcp cfg par0 par1 st =
    let upper = upcase par1 in
    if cfg.dccbounce == 0
    then (1, st)
    else if not (xstrncmp (some upper) (some (codes ":" ++ 1 ∷ codes "DCC")) 5)
    then (1, st)
    else elim (cfg.dcc_initiate (take irc_msglen (drop 1 upper))) as (λ _. Passed) [
      | none ↦ (1, st)
      | some dcct ↦ (0, did (server (codes "PRIVMSG " ++ par0 ++ codes " " ++ dcct)) st)
    ]

unfoldable pub log_channel : ClientCfg → Session → Session → Option ChannelType → Passed
log_channel cfg noted st none = (1, st)
log_channel cfg noted st (some chan) = (1, if cfg.has_log chan then noted else st)

-- A line for the log of the channel, if miau is on it and it has one, or of the nick.
unfoldable pub cmd_privmsg : ClientCfg → Text → Text → Session → Passed
unfolding channel_is_name channel_find log_channel
cmd_privmsg cfg par0 par1 st =
    let noted = did (logged par0 (drop 1 par1)) st in
    if channel_is_name (some par0) == 0
    then (1, if cfg.privlog == 0 then st else noted)
    else log_channel cfg noted st (channel_find st.channels par0 list_active)

unfoldable pub is_message : Text → Bool
unfolding xstrcmp
is_message cmd =
    xstrcmp (some cmd) (some (codes "PRIVMSG")) || xstrcmp (some cmd) (some (codes "NOTICE"))

-- What the other clients are sent of a message. `none` is a fault: a text or a target that is NULL, or
-- a format that leaves no room, so that the length that is left is negative.
unfoldable pub echo : ClientCfg → Text → Option Text → Option Text → Text → Option Text
unfolding channel_is_name
echo cfg cmd par0 par1 buf =
    let whole = codes ":" ++ cfg.nickname ++ codes "!" ++ cfg.idhostname ++ codes " " ++ buf in
    elim cfg.privmsg_fmt [
      | none ↦ some whole
      | some fmt ↦ if not (channel_is_name par0 == 0) then some whole else elim par0 [
        | none ↦ none
        | some target ↦ elim par1 [
          | none ↦ none
          | some text ↦
              let i = length (fmt cfg.nickname) in
              if ltb 510 i
              then none
              else some (
                  codes ":"
                  ++ target
                  ++ codes "!dummy "
                  ++ cmd
                  ++ codes " "
                  ++ target
                  ++ codes " "
                  ++ fmt cfg.nickname
                  ++ take (510 - i) (drop 1 text))
        ]
      ]
    ]

-- The line for the quick log, if it is kept for clients that are there.
unfoldable pub note : ClientCfg → Option Text → Text → Session → Session
note cfg none buf st = st
note cfg (some par0) buf st =
    if cfg.flushqlog == 0 then did (quick_log (user cfg ++ codes " " ++ buf)) st else st

unfoldable pub pass_message :
    ClientCfg → Text → Option Text → Option Text → Text → Session → Option Session
unfolding echo note
pass_message cfg cmd par0 par1 buf st = elim (echo cfg cmd par0 par1 buf) [
  | none ↦ none
  | some line ↦ some (note cfg par0 buf (did (others line) st))
]

unfoldable pub pass_cmd :
    ClientCfg → Text → Option Text → Option Text → Text → Session → Option Session
unfolding is_message pass_message
pass_cmd cfg cmd par0 par1 buf st =
    let sent = did (server buf) st in
    if not (st.connected == 2)
    then some
        (did (client (codes "NOTICE " ++ cfg.nickname ++ codes " :Not connected to server.")) st)
    else if is_message cmd
    then pass_message cfg cmd par0 par1 buf sent
    else some sent
