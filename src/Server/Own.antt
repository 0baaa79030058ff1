-- ===== src/Server/Own.antt =====
-- src/server.c: what miau's own JOIN and PART do to the lists of channels.
use miau.Prelude.{
  ℕ, ◌*◌, ◌≡◌, ◌≢◌, ◌∙◌, inl, inr, refl, ap, Bool, true, false, Option, none, some, List, [], ◌∷◌,
  Text, All, arith, Option-cases, ◌==◌,
}
use miau.Common.{same_nocase}
use miau.Common.Laws.{same_nocase_sym}
use miau.Channels.{ChannelType, Channels, list_active, channel_rem, channel_is_name}
use miau.Channels.Heap.{times, IsHeap}
use miau.Channels.Add.{IsKnown, Added, channel_add-active}
use miau.Channels.Remove.{channel_rem-times}
use miau.Qlog.{on_both, oldest_of}
use miau.Qlog.Marks.{marked, qlog_check-marked}
use miau.Qlog.Leave.{lookup, current, refreshed, channel_rem_checked}
use miau.Server.Reply.{log_join, Serving, ReplyCfg, active, write_queue}
use miau.Server.Heard.{
  source, unprefixed, log_line, leave, joined_other, joined, enter, join, part_told, part, cmd_join,
  cmd_part, server_reply,
}
use miau.Server.Tracked.{times-refreshed, refreshed-IsHeap, log_line-channels}
use miau.Server.Followed.{part_told-channels}

joined-own :
    (cfg : ReplyCfg) (nick hostname : Text) (c : ChannelType) (st : Serving)
    → same_nocase st.nickname nick ≡ true
    → (after : Serving) × (joined cfg nick hostname (some c) st ≡ some after)
      × (after.channels ≡ st.channels)
unfolding joined joined_other
joined-own cfg nick hostname c st mine = (
  log_line cfg log_join c (nick ∷ hostname ∷ c.simple_name ∷ []) st,
  rw (same_nocase_sym nick st.nickname, mine) refl,
  log_line-channels cfg log_join c (nick ∷ hostname ∷ c.simple_name ∷ []) st,
)

-- Where the server says that miau itself joins a channel that was not active: that is no fault, and the
-- channel is found on the active list then, by the name of the line. The channels whose real name is
-- known have their simple name set before.
pub server_reply-join :
    (cfg : ReplyCfg) (origin param1 : Text) (key : Option Text) (st : Serving)
    → same_nocase st.nickname (source origin).0 ≡ true
    → (channel_is_name (some (unprefixed param1)) == 0) ≡ false
    → All IsKnown st.channels.passive_channels
    → All IsKnown st.channels.old_channels
    → active (unprefixed param1) st ≡ none
    → (after : Serving) × (c : ChannelType) × (server_reply cfg cmd_join origin param1 key st
        ≡ some after)
      × (active (unprefixed param1) after ≡ some c)
unfolding server_reply join enter Added
server_reply-join cfg origin param1 key st mine named kp ko missed =
    let (c, e, found) = channel_add-active st.channels (unprefixed param1) key named kp ko missed in
    let (after, f, same) =
      joined-own cfg (source origin).0 (source origin).1 c
        (enter (source origin).0 (unprefixed param1) key st) (rw (mine) mine) in
    (after, c, rw (mine, found) (rw mine at f), rw (same, mine) found)

lookup-address :
    (a : ℕ) (cs : List ChannelType) (c : ChannelType) → lookup a cs ≡ some c → c.address ≡ a
unfolding lookup
lookup-address a [] c h = absurd (ground arith)
lookup-address a (d ∷ cs) c h = ground (arith, lookup-address a cs c)

current-address : (st : Channels) (c : ChannelType) → (current st c).address ≡ c.address
unfolding current
current-address st c = elim (Option-cases (lookup c.address st.active_channels)) [
  | inl e ↦ rw (e, current) refl
  | inr (d, e) ↦ rw (e, current) (lookup-address c.address st.active_channels d e)
]

-- A channel and the others on the active list once it was left.
abbrev pub Left : ℕ → Channels → Channels → Type 0
Left a before after =
    (times a after.active_channels ≡ 0)
    × ((b : ℕ) → b ≢ a → times b after.active_channels ≡ times b before.active_channels)

rem-Left :
    (st : Channels) (c : ChannelType)
    → IsHeap st
    → Left c.address st (channel_rem st (some (current st c)) list_active)
unfolding current
rem-Left st c h =
    let (gone, others) = channel_rem-times st (current st c) list_active h in
    let same = current-address st c in
    (rw same at gone, λ b ne. others b list_active (λ e. ne (e ∙ same)))

checked-Left :
    (flags : ℕ → Bool) (st : Channels) (c : ChannelType)
    → IsHeap st
    → Left c.address st (
        channel_rem
          (on_both (refreshed flags) st)
          (some (current (on_both (refreshed flags) st) c))
          list_active)
unfolding on_both
checked-Left flags st c h =
    let (gone, others) = rem-Left (on_both (refreshed flags) st) c (refreshed-IsHeap flags st h) in
    (gone, λ b ne. others b ne ∙ times-refreshed flags b st.active_channels)

leave-Left :
    (cfg : ReplyCfg) (c : ChannelType) (st : Serving)
    → IsHeap st.channels
    → Left c.address st.channels (leave cfg c st).channels
unfolding leave channel_rem_checked write_queue
leave-Left cfg c st h = rw (qlog_check-marked cfg.now (cfg.qloglength * 60) cfg.qlog st.channels) (
    checked-Left (marked st.channels (oldest_of cfg.now (cfg.qloglength * 60)) cfg.qlog) st.channels
      c h)

Left-from :
    (a : ℕ) {st st' : Channels} (after : Channels) → st' ≡ st → Left a st' after → Left a st after
Left-from a after e (gone, others) =
    (gone, λ b ne. others b ne ∙ ap (λ (s : Channels). times b s.active_channels) e)

part-Left :
    (cfg : ReplyCfg) (nick param1 : Text) (param2 : Option Text) (st : Serving) (c : ChannelType)
    → IsHeap st.channels
    → same_nocase nick st.nickname ≡ true
    → active (unprefixed param1) st ≡ some c
    → Left c.address st.channels (part cfg nick param1 param2 st).channels
unfolding part
part-Left cfg nick param1 param2 st c h mine found =
    let same = part_told-channels cfg nick param2 c st in
    rw (found, part, mine)
      (Left-from c.address (leave cfg c (part_told cfg nick param2 c st)).channels same
        (leave-Left cfg c (part_told cfg nick param2 c st) (rw same h)))

-- Where the server says that miau itself leaves an active channel: that is no fault, the channel is no
-- longer on the active list, and every other one is there as before, where no structure was in two
-- places.
pub server_reply-part :
    (cfg : ReplyCfg) (origin param1 : Text) (param2 : Option Text) (st : Serving) (c : ChannelType)
    → IsHeap st.channels
    → same_nocase (source origin).0 st.nickname ≡ true
    → active (unprefixed param1) st ≡ some c
    → (after : Serving) × (server_reply cfg cmd_part origin param1 param2 st ≡ some after)
      × Left c.address st.channels after.channels
unfolding server_reply
server_reply-part cfg origin param1 param2 st c h mine found = (
  part cfg (source origin).0 param1 param2 st,
  refl,
  part-Left cfg (source origin).0 param1 param2 st c h mine found,
)
