-- ===== src/Channels/Examples.antt =====
-- Runs of the channel lists, and the theorems at concrete states.
use miau.Prelude.{
  ◌≡◌, refl, true, some, none, [], ◌∷◌, ◌++◌, codes, arith, map, if◌then◌else◌, drop,
}
use miau.Tools.{to_lower}
use miau.Irc.{cut}
use miau.Common.{same_nocase}
use miau.Channels.{
  list_active, list_passive, ChannelType, Channels, channel_add, channel_find, new_channel,
  channel_topic, channel_when,
}
use miau.Channels.Add.{IsKnown, Added, channel_add-active}
use miau.Channels.Heap.{times, places, IsHeap}
use miau.Channels.Join.{
  JoinCfg, channel_join_list, willing, not_empty, with_commas, channel_join_list-willing,
}

abbrev safe : ChannelType
safe = new_channel 1 (codes "!foo") none

abbrev plain : ChannelType
plain = record (new_channel 2 (codes "#miau") (some (codes "k"))) { hasqlog = true }

abbrev st : Channels
st = record {
  active_channels = plain ∷ [];
  passive_channels = safe ∷ [];
  old_channels = [];
  next = 3;
}

-- A safe channel is found by the real name that the server gives it.
safe_found : channel_find st (codes "!ABCDEfoo") list_passive ≡ some safe
unfolding channel_find same_nocase to_lower
safe_found = refl

st-IsHeap : IsHeap st
unfolding IsHeap places times
st-IsHeap addr = (ground arith, λ le. ground arith)

safe-IsKnown : IsKnown safe
unfolding IsKnown
safe-IsKnown e = ground arith

channel_add-active_example :
    Added (codes "!ABCDEfoo") list_active (channel_add st (codes "!ABCDEfoo") none list_active)
unfolding channel_find same_nocase to_lower
channel_add-active_example =
    channel_add-active st (codes "!ABCDEfoo") none refl (safe-IsKnown, tt) tt refl

abbrev cfg : JoinCfg
cfg = record { rejoin = 0; leave = 1; jointries = 3 }

channel_join_list-willing_example : (channel_join_list cfg true st).1 ≡ (
    if not_empty (willing cfg true st.passive_channels)
    then some (
        cut (
          codes "JOIN "
          ++ (drop 1 (
                with_commas
                  (map (λ (c : ChannelType). c.name) (willing cfg true st.passive_channels)))
              ++ b' '
                ∷ drop 1 (
                    with_commas
                      (map (λ (c : ChannelType). c.key) (willing cfg true st.passive_channels))))))
    else none)
channel_join_list-willing_example = channel_join_list-willing cfg true st

joined : (channel_join_list cfg true st).1 ≡ some (codes "JOIN !foo -")
unfolding channel_join_list cut
joined = refl

-- The topic's author is kept for a topic only.
topic_cleared :
    (channel_when (channel_topic safe (some [])) (codes "x") (codes "1")).topicwho ≡ none
unfolding channel_topic channel_when
topic_cleared = refl
