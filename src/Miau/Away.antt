-- ===== src/Miau/Away.antt =====
-- src/miau.c: what happens when the last client has left, and when miau is marked away.
use miau.Prelude.{
  ℕ, Bool, true, false, not, ◌&&◌, ◌||◌, Option, none, some, List, [], ◌∷◌, ◌++◌, Text, map, codes,
  ◌==◌, if◌then◌else◌, drop,
}
use miau.Prelude.Int.{negsuc}
use miau.Prelude.Strings.{tokens_by}
use miau.Irc.{cut}
use miau.Channels.{ChannelType, Channels}

pub record AwayCfg : Type 0 where
  pub awaymsg : Option Text
  pub leavemsg : Option Text
  pub usequitmsg : Bool
  pub leave : ℕ
  pub rejoin : Bool
  pub autoaway : Bool

-- A line to the server, without its end, a report to the clients, a line for the logs of all channels.
pub data Told : Type 0 where
  sent : Text → Told
  leaving detached : Told

-- `clients` are the clients that are connected; the bits of `awaystate` are `away` and `custom`.
pub record Away : Type 0 where
  pub channels : Channels
  pub connected : ℕ
  pub clients : ℕ
  pub away : Bool
  pub custom : Bool
  pub awaymsg : Option Text
  pub told : List Told

-- What `irc_write` makes of a text.
abbrev pub sends : Text → Told
sends text = sent (cut text)

abbrev pub say : List Told → Away → Away
say ts st = record st { told = st.told ++ ts }

-- NULL as a text of `printf`.
abbrev pub printed : Option Text → Text
printed none = codes "(null)"
printed (some s) = s

abbrev pub is_none : Option Text → Bool
is_none none = true
is_none (some s) = false

abbrev pub either : Option Text → Option Text → Option Text
either none b = b
either (some a) b = some a

unfoldable pub mark_away : Text → Away → Away
mark_away msg st = say (sends (codes "AWAY :" ++ msg) ∷ []) (record st { away = true })

-- The message that was given takes the place of the one before, and is sent even if miau is away.
abbrev pub given : Option Text → Away → Away
given none st = st
given (some msg) st = record st { awaymsg = some msg; away = false }

unfoldable pub set_away : AwayCfg → Option Text → Away → Away
unfolding mark_away
set_away cfg msg st =
    if not (st.connected == 2) || is_none msg && is_none cfg.awaymsg
    then st
    else if st.custom
    then (if st.away then st else mark_away (printed st.awaymsg) st)
    else if is_none msg && not (st.clients == 0)
    then st
    else if (given msg st).away
    then given msg st
    else mark_away (printed (either (given msg st).awaymsg cfg.awaymsg)) (given msg st)

-- The names of the channels, each behind a comma.
unfoldable pub chan_list : List ChannelType → Text
chan_list [] = []
chan_list (c ∷ cs) = b',' ∷ (c.name ++ chan_list cs)

abbrev pub demoted : ChannelType → ChannelType
demoted c = record c { oper = negsuc 0 }

-- The channels after the walk over the active ones.
unfoldable pub left_channels : AwayCfg → Channels → Channels
left_channels cfg st =
    if cfg.leave == 0
    then st
    else if cfg.rejoin
    then record st {
      active_channels = [];
      passive_channels = st.passive_channels ++ map demoted st.active_channels;
    }
    else record st { active_channels = [] }

unfoldable pub actions : Text → List Text → List Told
actions msg [] = []
actions msg (name ∷ names) =
    sends (codes "PRIVMSG " ++ name ++ codes " :" ++ 1 ∷ (codes "ACTION " ++ msg ++ 1 ∷ []))
    ∷ actions msg names

-- The message that `usequitmsg` chooses.
abbrev pub chosen : Bool → Option Text → Option Text → Option Text
chosen quit none configured = configured
chosen quit (some reason) configured = if quit then some reason else configured

-- What is said on the channels, or to the server about them.
unfoldable pub farewell : AwayCfg → Option Text → Text → List Told
unfolding actions
farewell cfg reason chans =
    let leavemsg = chosen cfg.usequitmsg reason cfg.leavemsg in
    if cfg.leave == 0 && is_none cfg.leavemsg
    then detached ∷ []
    else if cfg.leave == 0
    then actions (printed leavemsg) (tokens_by b',' [] (drop 1 chans))
    else if cfg.leave == 1 && (not (is_none cfg.leavemsg) || not (is_none reason))
    then sends (codes "PART " ++ drop 1 chans ++ codes " :" ++ printed leavemsg) ∷ []
    else if is_none cfg.leavemsg
    then leaving ∷ sends (codes "JOIN 0") ∷ []
    else []

unfoldable pub leave_channels : AwayCfg → Option Text → Away → Away
unfolding chan_list left_channels farewell
leave_channels cfg reason st = elim st.channels.active_channels as (λ _. Away) [
  | [] ↦ st
  | c ∷ cs ↦
      say (farewell cfg reason (chan_list (c ∷ cs)))
        (record st { channels = left_channels cfg st.channels })
]

unfoldable pub clients_left : AwayCfg → Option Text → Away → Away
unfolding leave_channels set_away
clients_left cfg reason st =
    let parted = leave_channels cfg reason st in
    if cfg.autoaway then set_away cfg (chosen cfg.usequitmsg reason cfg.awaymsg) parted else parted
