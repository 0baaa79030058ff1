-- ===== src/Client/Examples.antt =====
-- Lines of a client, and the theorems at them.
use miau.Prelude.{◌≡◌, refl, false, true, none, some, [], ◌∷◌, ◌++◌, Text, arith, codes, map}
use miau.Channels.{ChannelType, Channels, new_channel}
use miau.Channels.Heap.{times, places, IsHeap}
use miau.Client.{Effect, ClientCfg, Session, cmd_join, cmd_part}
use miau.Client.Read.{Words, split_line, client_read}
use miau.Client.Quiet.{sent_of}
use miau.Client.Passing.{Sends, handed_on, client_read-munched}
use miau.Client.Drop.{DropCfg, Clients, disconnect_report, client_drop}
use miau.Client.Dropped.{client_drop_all}

abbrev cfg : ClientCfg
cfg = record {
  nickname = codes "me";
  username = codes "u";
  hostname = codes "h";
  idhostname = codes "u@h";
  realname = codes "irc.example.org";
  flushqlog = 0;
  no_identify_capab = 1;
  dccbounce = 0;
  privlog = 0;
  has_log = λ c. false;
  emptyaway = false;
  privmsg_fmt = none;
  dcc_initiate = λ t. none;
}

abbrev chans : Channels
chans = record {
  active_channels = [];
  passive_channels = new_channel 1 (codes "#b") none ∷ [];
  old_channels = [];
  next = 2;
}

chans-IsHeap : IsHeap chans
unfolding IsHeap places times
chans-IsHeap a = (ground arith, λ h. ground arith)

abbrev session : Session
session = record {
  channels = chans;
  connected = 2;
  away = false;
  custom = false;
  awaymsg = none;
  done = [];
}

abbrev offline : Session
offline = record session { connected = 0 }

abbrev notice : Text
notice = codes "notice #b :hi there"

abbrev notice_words : Words
notice_words = record {
  command = codes "NOTICE";
  params = some (codes "#b", some (codes ":hi there"));
}

client_read-munched_example :
    Sends (client_read cfg notice session) (sent_of [] ++ handed_on cfg notice_words notice)
unfolding split_line miau.Tools.upcase miau.Tools.to_upper
client_read-munched_example =
    client_read-munched cfg notice session notice_words refl refl refl refl

-- The first channel gets the key, the second none.
keys :
    map
      (λ (c : ChannelType). c.key)
      (cmd_join cfg (some (codes "#a,#c")) (some (codes "k")) offline).channels.passive_channels
    ≡ codes "-" ∷ codes "k" ∷ codes "-" ∷ []
unfolding cmd_join miau.Channels.channel_add miau.Channels.channel_find miau.Common.same_nocase
    miau.Tools.lowcase miau.Tools.to_lower
keys = refl

-- A message for being away that has no colon loses its first character.
cuts_away :
    miau.Client.Message.cmd_away cfg (codes "AWAY lunch") (some (codes "lunch")) session
    ≡ (1, record session { away = true; custom = true; awaymsg = some (codes "unch") })
unfolding miau.Client.Message.cmd_away
cuts_away = refl

abbrev drops : DropCfg
drops = record { maxclients = 3; usequitmsg = 1; autoaway = 1; awaymsg = none }

abbrev two_clients : Clients
two_clients = record { clients = 5 ∷ 7 ∷ []; connected = 2; calls = [] }

client_drop_all_example :
    (after : Clients) × (client_drop drops none none disconnect_report 0 none two_clients
      ≡ some after)
    × (after.clients ≡ [])
    × (after.connected ≡ 0)
client_drop_all_example = client_drop_all drops none none disconnect_report 0 two_clients refl
