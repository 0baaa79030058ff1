-- ===== src/Server/Reply.antt =====
-- src/server.c: `server_reply`, what miau learns of its channels from numeric replies. A channel's queue
-- of modes is found by the address of the channel. NULL is `none`, also for a fault.
use miau.Prelude.{
  ℕ, suc, Bool, false, Option, none, some, List, [], ◌∷◌, ◌++◌, Text, ◌==◌, if◌then◌else◌, length,
  take, drop,
}
use miau.Prelude.Int.{ℤ, pos, negsuc, above}
use miau.Prelude.Strings.{tokens_by}
use miau.Perm.{PermList, Ident}
use miau.Automode.{AutomodeType}
use miau.Channels.{
  ChannelType, Channels, list_active, list_passive, channel_find, channel_topic, channel_when,
}
use miau.Qlog.{Log}
use miau.Server.Modes.{parse_modes}

-- The kinds of lines in a log of a channel.
pub data LogType : Type 0 where
  log_join log_part log_quit log_mode log_nick log_misc : LogType

-- What is reported to the clients and to miau's log, and the lines for the logs of one channel, by its
-- address, and of all of them.
pub data Notice : Type 0 where
  got_nick killed : Text → Notice
  kicked : List Text → Notice
  entry : LogType → ℕ → List Text → Notice
  entry_all : LogType → List (Option Text) → Notice

pub record Serving : Type 0 where
  pub channels : Channels
  pub queues : ℕ → List AutomodeType
  pub automodes : ℕ
  pub nickname : Text
  pub ident : Ident
  pub got_nick : ℕ
  pub getting_nick : ℕ
  pub ping_got : ℕ
  pub pass : ℕ
  pub done : List Notice

-- `first_nick` heads the list of nicks that miau wants, `stamp` is the time as TOPIC writes it, and
-- `has_log` tells whether a channel has a log for a kind of line.
pub record ReplyCfg : Type 0 where
  pub first_nick : Text
  pub automodelist : PermList
  pub has_log : ChannelType → LogType → Bool
  pub now : ℕ
  pub qloglength : ℕ
  pub qlog : Log
  pub stamp : Text

-- A text in front of the first character `c` and behind it.
abbrev pub cut_at : Option ℕ → Text → Option (Text × Text)
cut_at none s = none
cut_at (some i) s = some (take i s, drop (suc i) s)

abbrev pub did : Notice → Serving → Serving
did e st = record st { done = st.done ++ e ∷ [] }

unfoldable pub put : ℕ → ChannelType → List ChannelType → List ChannelType
put a d [] = []
put a d (c ∷ cs) = let rest = put a d cs in if c.address == a then d ∷ cs else c ∷ rest

-- Writing to the structure of an active channel.
unfoldable pub write_channel : ChannelType → Serving → Serving
unfolding put
write_channel d st =
    let chans = record st.channels {
      active_channels = put d.address d st.channels.active_channels;
    } in
    record st { channels = chans }

unfoldable pub write_queue : ℕ → List AutomodeType → Serving → Serving
write_queue a queue st = record st { queues = λ b. if b == a then queue else st.queues b }

abbrev pub active : Text → Serving → Option ChannelType
active channel st = channel_find st.channels channel list_active

abbrev pub write_found : Option ChannelType → (ChannelType → ChannelType) → Serving → Serving
write_found none f st = st
write_found (some c) f st = write_channel (f c) st

-- RPL_NOTOPIC: the topic is forgotten.
unfoldable pub no_topic : Option (Text × Text) → Serving → Serving
unfolding channel_find channel_topic write_channel
no_topic none st = st
no_topic (some (channel, rest)) st = write_found (active channel st) (λ c. channel_topic c none) st

-- RPL_TOPIC.
unfoldable pub topic_is : Option (Text × Text) → Serving → Serving
unfolding channel_find channel_topic write_channel
topic_is none st = st
topic_is (some (channel, text)) st =
    write_found (active channel st) (λ c. channel_topic c (some text)) st

-- RPL_TOPICWHO: who set the topic, and when.
unfoldable pub topic_who_when : Text → Option (Text × Text) → Serving → Serving
unfolding channel_find channel_when write_channel
topic_who_when channel none st = st
topic_who_when channel (some (who, when)) st =
    write_found (active channel st) (λ c. channel_when c who when) st

-- A change of modes of an active channel, with the queue of its modes.
unfoldable pub moded_channel : Text → Option ChannelType → Serving → Option Serving
unfolding parse_modes write_channel write_queue
moded_channel original none st = some st
moded_channel original (some c) st =
    elim (parse_modes st.nickname original
        (record { key = c.key; oper = c.oper; mode_queue = st.queues c.address }))
      as (λ _. Option Serving) [
        | none ↦ none
        | some m ↦ some (
            write_queue c.address m.mode_queue
              (write_channel (record c { key = m.key; oper = m.oper }) st))
      ]

-- RPL_CHANNELMODEIS.
unfoldable pub mode_is : Option (Text × Text) → Serving → Option Serving
unfolding channel_find moded_channel
mode_is none st = some st
mode_is (some (channel, modes)) st = moded_channel modes (active channel st) st

-- Whether miau is not yet known to be an operator of the channel, or not to be one.
abbrev pub unknown : ℤ → Bool
unknown (pos n) = false
unknown (negsuc n) = n == 0

-- RPL_NAMREPLY: who is alone on a channel that it joined is the operator there.
unfoldable pub names_in : Option ChannelType → List Text → Serving → Serving
unfolding write_channel
names_in none nicks st = st
names_in (some c) nicks st =
    if unknown c.oper
    then write_channel (record c { oper = if length nicks == 1 then pos 1 else pos 0 }) st
    else st

unfoldable pub names_are : Option (Text × Text) → Serving → Serving
unfolding channel_find names_in
names_are none st = st
names_are (some (kind, rest)) st = elim (tokens_by b' ' [] rest) as (λ _. Serving) [
  | [] ↦ st
  | channel ∷ nicks ↦ names_in (active channel st) nicks st
]

-- A channel that could not be joined: while miau will try again by itself, clients do not see it.
unfoldable pub join_failed : List Text → Serving → Serving
unfolding channel_find
join_failed [] st = st
join_failed (channel ∷ rest) st = elim (channel_find st.channels channel list_passive) [
  | none ↦ st
  | some c ↦ if above 0 c.jointries then record st { pass = 0 } else st
]
