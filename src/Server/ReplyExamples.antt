-- ===== src/Server/ReplyExamples.antt =====
-- Runs of the lines of the server, and the theorems at concrete lines.
use miau.Prelude.{◌≡◌, refl, true, false, none, some, [], ◌∷◌, arith, codes}
use miau.Prelude.Int.{pos}
use miau.Channels.{ChannelType, new_channel, channel_is_name, channel_find}
use miau.Channels.Add.{IsKnown}
use miau.Common.{same_nocase}
use miau.Channels.Heap.{times, places, IsHeap}
use miau.Server.Reply.{Serving, ReplyCfg, write_channel, active}
use miau.Server.Heard.{
  source, unprefixed, reply, rpl_namreply, cmd_kick, cmd_join, cmd_part, server_reply,
}
use miau.Server.Followed.{server_reply-IsHeap}
use miau.Server.Own.{Left, server_reply-join, server_reply-part}

abbrev told : ReplyCfg
told = record {
  first_nick = codes "miau";
  automodelist = record { name = codes "o:*"; allowed = 1 } ∷ [];
  has_log = λ c kind. true;
  now = 100;
  qloglength = 1;
  qlog = [];
  stamp = codes "100";
}

abbrev serving : Serving
serving = record {
  channels = record {
    active_channels = new_channel 1 (codes "#a") none ∷ [];
    passive_channels = new_channel 2 (codes "#b") none ∷ [];
    old_channels = [];
    next = 3;
  };
  queues = λ a. [];
  automodes = 0;
  nickname = codes "me";
  ident = record { idhostname = codes "u@h"; goodhostname = 2 };
  got_nick = 0;
  getting_nick = 0;
  ping_got = 0;
  pass = 1;
  done = [];
}

serving-IsHeap : IsHeap serving.channels
unfolding IsHeap places times
serving-IsHeap a = ground arith

-- Who is alone on a channel becomes its operator.
alone :
    server_reply told
      (reply rpl_namreply)
      (codes "s")
      (codes "me")
      (some (codes "= #a :@me"))
      serving
    ≡ some (write_channel (record (new_channel 1 (codes "#a") none) { oper = pos 1 }) serving)
unfolding server_reply same_nocase miau.Tools.to_lower
alone = refl

server_reply-IsHeap_example : IsHeap (record serving.channels { active_channels = [] })
unfolding server_reply same_nocase miau.Tools.to_lower
server_reply-IsHeap_example =
    server_reply-IsHeap (record told { has_log = λ c kind. false }) cmd_kick (codes "op!o@h")
      (codes "#a") (some (codes "me :bye")) serving _ serving-IsHeap refl

server_reply-join_example :
    (after : Serving) × (c : ChannelType) × (server_reply told cmd_join
        (codes "ME!u@h")
        (codes ":#b")
        none
        serving
      ≡ some after)
    × (active (unprefixed (codes ":#b")) after ≡ some c)
unfolding source channel_is_name channel_find IsKnown same_nocase miau.Tools.to_lower
server_reply-join_example =
    server_reply-join told (codes "ME!u@h") (codes ":#b") none serving refl refl
      ((λ e. ground arith), tt) tt refl

server_reply-part_example :
    (after : Serving) × (server_reply told cmd_part
        (codes "me!u@h")
        (codes "#a")
        (some (codes ":bye"))
        serving
      ≡ some after)
    × Left 1 serving.channels after.channels
unfolding source channel_find same_nocase miau.Tools.to_lower
server_reply-part_example =
    server_reply-part told (codes "me!u@h") (codes "#a") (some (codes ":bye")) serving
      (new_channel 1 (codes "#a") none) serving-IsHeap refl refl
