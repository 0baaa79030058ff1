-- ===== src/Client.antt =====
-- src/client.c: the commands of a client. What they do to the world outside of the state is the list of
-- effects `done`. NULL is `none`, also for a fault, which is a read through NULL.
pub mod Message
pub mod Read
pub mod Quiet
pub mod Passing
pub mod Queued
pub mod Drop
pub mod Dropped
mod Examples
use miau.Prelude.{
  ℕ, zero, suc, ◌-◌, Bool, true, false, not, ◌&&◌, ◌||◌, Option, none, some, List, [], ◌∷◌, ◌++◌,
  Text, codes, text_eq, ltb, ◌==◌, if◌then◌else◌, length, take, drop, head0, get_or,
}
use miau.Prelude.Strings.{strchr, starts, token_end, tokens_by, fields_by}
use miau.Common.{same_nocase}
use miau.Tools.{upcase}
use miau.Irc.{cut}
use miau.Channels.{
  ChannelType, Channels, list_active, list_passive, channel_find, channel_add, channel_rem,
  channel_is_name,
}

-- To the server, this client, all clients or the other clients, without the line's end; a line for the quick log; the end of
-- this client's connection, with the reason; a command to miau; a line for the log of a nick or channel.
pub data Effect : Type 0 where
  server client clients others quick_log : Text → Effect
  dropped : Option Text → Effect
  commanded : Option Text → Option Text → Effect
  logged : Text → Text → Effect

pub record ClientCfg : Type 0 where
  pub nickname : Text
  pub username : Text
  pub hostname : Text
  pub idhostname : Text
  pub realname : Text
  pub flushqlog : ℕ
  pub no_identify_capab : ℕ
  pub dccbounce : ℕ
  pub privlog : ℕ
  pub has_log : ChannelType → Bool
  pub emptyaway : Bool
  pub privmsg_fmt : Option (Text → Text)
  pub dcc_initiate : Text → Option Text

pub record Session : Type 0 where
  pub channels : Channels
  pub connected : ℕ
  pub away : Bool
  pub custom : Bool
  pub awaymsg : Option Text
  pub done : List Effect

-- What `irc_write` and `irc_mwrite` make of an effect: their texts are cut.
abbrev pub written : Effect → Effect
written (server text) = server (cut text)
written (client text) = client (cut text)
written (clients text) = clients (cut text)
written (others text) = others (cut text)
written (quick_log text) = quick_log text
written (dropped reason) = dropped reason
written (commanded par0 par1) = commanded par0 par1
written (logged name text) = logged name text

abbrev pub did : Effect → Session → Session
did e st = record st { done = st.done ++ written e ∷ [] }

abbrev pub user : ClientCfg → Text
user cfg = codes ":" ++ cfg.nickname ++ codes "!" ++ cfg.username ++ codes "@" ++ cfg.hostname

unfoldable pub cmd_part_action : ClientCfg → ChannelType → Text → Session → Session
unfolding channel_rem
cmd_part_action cfg chan reason st =
    did (clients (user cfg ++ codes " PART " ++ chan.name ++ codes " :" ++ reason))
      (record st { channels = channel_rem st.channels (some chan) list_passive })

-- The walk over the names. The reason is read behind its first byte, which is a fault where it is NULL.
unfoldable pub part_names : ClientCfg → Option Text → List Text → Session → Option Session
unfolding channel_find cmd_part_action
part_names cfg par1 [] st = some st
part_names cfg par1 (name ∷ names) st = elim (channel_find st.channels name list_passive) [
  | none ↦ part_names cfg par1 names (
      did
        (clients
          (codes ":miau 403 " ++ cfg.nickname ++ codes " " ++ name ++ codes " :No such channel"))
        st)
  | some chan ↦ elim par1 [
    | none ↦ none
    | some reason ↦ part_names cfg par1 names (cmd_part_action cfg chan (drop 1 reason) st)
  ]
]

unfoldable pub cmd_part : ClientCfg → Option Text → Option Text → Session → Option Session
unfolding part_names
cmd_part cfg none par1 st = some st
cmd_part cfg (some par0) par1 st =
    part_names cfg par1 (tokens_by b',' [] (take (token_end b':' par0) par0)) st

-- Leaving all passive channels.
unfoldable pub part_all : ClientCfg → List ChannelType → Session → Session
unfolding cmd_part_action
part_all cfg [] st = st
part_all cfg (chan ∷ rest) st = part_all cfg rest (cmd_part_action cfg chan [] st)

-- The key for a channel, and what `keyseek` is then.
unfoldable pub next_key : Option Text → Option Text → Option Text × Option Text
next_key none keyseek = (none, keyseek)
next_key (some key) keyseek = elim key as (λ _. Option Text × Option Text) [
  | [] ↦ (some [], keyseek)
  | c ∷ rest ↦ elim (strchr (c ∷ rest) b',') [
    | none ↦ (some (c ∷ rest), none)
    | some behind ↦
        (some (take (length (c ∷ rest) - length behind) (c ∷ rest)), some (drop 1 behind))
  ]
]

unfoldable pub join_one : ClientCfg → Text → Option Text → Session → Session
unfolding channel_add
join_one cfg chan key st =
    let told =
      did
        (clients
          (codes ":miau NOTICE " ++ cfg.nickname ++ codes " :Queued joining channel " ++ chan))
        st in
    record told { channels = (channel_add told.channels chan key list_passive).1 }

-- The loop of `cmd_join` over the parts between commas: an empty part ends it where it is the last.
unfoldable pub join_names : ClientCfg → List Text → Option Text → Option Text → Session → Session
unfolding next_key join_one
join_names cfg [] key keyseek st = st
join_names cfg (chan ∷ chans) key keyseek st =
    let (now, later) = next_key key keyseek in
    let more = join_names cfg chans later later (join_one cfg chan now st) in
    elim chans [ [] ↦ if length chan == 0 then st else more | c ∷ cs ↦ more ]

unfoldable pub cmd_join : ClientCfg → Option Text → Option Text → Session → Session
unfolding join_names part_all
cmd_join cfg none par1 st = st
cmd_join cfg (some par0) par1 st =
    if text_eq par0 (codes "0")
    then part_all cfg st.channels.passive_channels st
    else join_names cfg (fields_by b',' [] par0) par1 none st
