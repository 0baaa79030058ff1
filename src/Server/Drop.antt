-- ===== src/Server/Drop.antt =====
-- src/server.c: the end of a connection to a server. Active channels become passive ones, if they are
-- to be joined again. What is sent to the clients is the list `told`, the line to the server `quit`.
use miau.Prelude.{
  ℕ, ◌-◌, false, Option, none, some, List, [], ◌∷◌, ◌++◌, Text, codes, ◌==◌, if◌then◌else◌, take,
}
use miau.Prelude.Int.{negsuc}
use miau.Irc.{Flood, cut, irc_clear_queue, irc_msglen}
use miau.Channels.{ChannelType, Channels, channel_simplify_name}

-- What the function reads of the configuration and the state.
pub record DropCfg : Type 0 where
  pub rejoin : ℕ
  pub chandiscon : ℕ
  pub nickname : Text
  pub username : Text
  pub hostname : Text

-- `socket` is 0 where there is no connection.
pub record Link : Type 0 where
  pub channels : Channels
  pub flood : Flood
  pub socket : ℕ
  pub connected : ℕ
  pub connect_timer : ℕ
  pub realname : Text
  pub told : List Text
  pub quit : Option Text

abbrev pub serv_disconnect : Text
serv_disconnect = codes "Disconnected from server."

abbrev pub part_reason : Option Text → Text
part_reason none = serv_disconnect
part_reason (some reason) = reason

-- What the clients are told about a channel.
unfoldable pub leave_notice : DropCfg → Text → Text → List Text
leave_notice cfg name reason =
    if cfg.chandiscon == 1
    then cut (codes ":" ++ cfg.nickname ++ codes " NOTICE " ++ name ++ codes " :" ++ reason) ∷ []
    else if cfg.chandiscon == 2
    then cut (
        codes ":"
        ++ cfg.nickname
        ++ codes "!"
        ++ cfg.username
        ++ codes "@"
        ++ cfg.hostname
        ++ codes " PART "
        ++ name
        ++ codes " :"
        ++ reason)
      ∷ []
    else []

-- The channel as it waits to be joined again, under its simple name.
unfoldable pub reverted : ChannelType → ChannelType
unfolding channel_simplify_name
reverted c = record c { oper = negsuc 0; name = channel_simplify_name c.name; name_set = false }

-- The walk over the active channels: each leaves the list from its head.
unfoldable pub drop_channels :
    DropCfg → Text → List ChannelType → List ChannelType → List Text → List ChannelType × List Text
unfolding leave_notice reverted
drop_channels cfg reason [] passive told = (passive, told)
drop_channels cfg reason (c ∷ active) passive told =
    drop_channels cfg reason active
      (if cfg.rejoin == 1 then passive ++ reverted c ∷ [] else passive)
      (told ++ leave_notice cfg c.name reason)

abbrev pub dropped : Channels → List ChannelType → Channels
dropped st passive = record st { active_channels = []; passive_channels = passive }

abbrev pub last_notice : DropCfg → Text → List Text
last_notice cfg reason =
    if cfg.chandiscon == 3
    then cut (codes ":miau PRIVMSG " ++ cfg.nickname ++ codes ": " ++ reason) ∷ []
    else []

-- The line that says good-bye, and the socket once it is closed. `none` is a fault: the reason is
-- NULL, which is given to `snprintf` for a text.
unfoldable pub say_quit : Option Text → Link → Option Link
say_quit reason st = if st.socket == 0 then some st else elim reason [
  | none ↦ none
  | some text ↦ some (record st {
    socket = 0;
    quit = some (take (irc_msglen - 1) (codes "QUIT :" ++ text ++ 13 ∷ 10 ∷ []));
  })
]

-- The rest of the function, once the connection is closed.
unfoldable pub forget : DropCfg → Text → Link → Link
unfolding drop_channels
forget cfg reason st =
    let left =
      drop_channels cfg reason st.channels.active_channels st.channels.passive_channels st.told in
    record st {
      channels = dropped st.channels left.0;
      connected = 0;
      connect_timer = 0;
      realname = codes "miau";
      told = left.1 ++ last_notice cfg reason;
    }

unfoldable pub server_drop : DropCfg → Option Text → Link → Option Link
unfolding irc_clear_queue say_quit forget
server_drop cfg reason st =
    elim (say_quit reason (record st { flood = irc_clear_queue st.flood })) [
      | none ↦ none
      | some closed ↦ some (forget cfg (part_reason reason) closed)
    ]
