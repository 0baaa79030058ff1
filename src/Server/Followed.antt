-- ===== src/Server/Followed.antt =====
-- src/server.c: every line of the server keeps the lists of channels in order.
use miau.Prelude.{
  ℕ, ◌≡◌, inl, inr, ◌&&◌, Option, none, some, List, [], ◌∷◌, Text, Option-cases, ◌==◌, length,
}
use miau.Common.{same_nocase}
use miau.Tools.{pos}
use miau.Automode.{any_mode, automode_drop_channel, automode_queue}
use miau.Channels.{ChannelType, list_active}
use miau.Channels.Heap.{IsHeap}
use miau.Channels.Places.{channel_add-IsHeap}
use miau.Server.Reply.{
  LogType, did, kicked, log_join, log_part, log_mode, log_misc, Serving, ReplyCfg, cut_at,
  write_queue, active, moded_channel,
}
use miau.Server.Heard.{
  source, unprefixed, log_line, nick_changed, reason_of, kick_logged, kick_me, kicked_from, kick,
  joined_other, joined, enter, join, part_told, part, quit, kill, host_learnt, mode, topic_logged,
  topic, text_of, Heard, reply, cmd_nick, cmd_pong, cmd_kick, cmd_join, cmd_part, cmd_quit,
  cmd_kill, cmd_mode, cmd_topic, server_reply,
}
use miau.Server.Tracked.{
  leave-IsHeap, Tidy, >>=-Tidy, then-Tidy, if_Tidy, if_IsHeap, log_line-channels, moded-Tidy,
  numeric-Tidy, write_channel-IsHeap,
}

log_line-IsHeap :
    (cfg : ReplyCfg) (kind : LogType) (c : ChannelType) (args : List Text) (st : Serving)
    → IsHeap st.channels
    → IsHeap (log_line cfg kind c args st).channels
log_line-IsHeap cfg kind c args st h = rw (log_line-channels cfg kind c args st) h

nick_changed-IsHeap :
    (cfg : ReplyCfg) (nick param1 : Text) (st : Serving)
    → IsHeap st.channels
    → IsHeap (nick_changed cfg nick param1 st).channels
unfolding nick_changed
nick_changed-IsHeap cfg nick param1 st h =
    if_IsHeap (same_nocase st.nickname nick) _ st (if_IsHeap _ _ _ h h) h

kick_logged-Tidy :
    (cfg : ReplyCfg) (nick : Text) (c : ChannelType) (parts : Option (Text × Text)) (st : Serving)
    → IsHeap st.channels
    → Tidy (kick_logged cfg nick c parts st)
unfolding kick_logged Tidy
kick_logged-Tidy cfg nick c none st h = h
kick_logged-Tidy cfg nick c (some p) st h =
    if_Tidy (cfg.has_log c log_part) _ _ (>>=-Tidy (reason_of p.1) _ (λ why e. h)) h

kick_me-Tidy :
    (cfg : ReplyCfg) (nick channel : Text) (c : ChannelType) (parts : Option (Text × Text))
    (st : Serving)
    → IsHeap st.channels
    → Tidy (kick_me cfg nick channel c parts st)
unfolding kick_me Tidy
kick_me-Tidy cfg nick channel c none st h = h
kick_me-Tidy cfg nick channel c (some p) st h =
    if_Tidy (same_nocase st.nickname p.0 && length st.nickname == length p.0) _ _
      (>>=-Tidy (reason_of p.1) _
        (λ why e. leave-IsHeap cfg c (did (kicked (nick ∷ channel ∷ why ∷ [])) st) h))
      h

kick-Tidy :
    (cfg : ReplyCfg) (nick channel : Text) (param2 : Option Text) (st : Serving)
    → IsHeap st.channels
    → Tidy (kick cfg nick channel param2 st)
unfolding kick kicked_from Tidy
kick-Tidy cfg nick channel param2 st h = elim (Option-cases (active channel st)) [
  | inl e ↦ rw (e, kick) h
  | inr (c, e) ↦
      rw (e, kick)
        (>>=-Tidy param2 _ (λ text q.
          then-Tidy (kick_logged cfg nick c (cut_at (pos text b' ') text) st) _
            (kick_logged-Tidy cfg nick c (cut_at (pos text b' ') text) st h)
            (λ after h'. kick_me-Tidy cfg nick channel c (cut_at (pos text b' ') text) after h')))
]

joined-Tidy :
    (cfg : ReplyCfg) (nick hostname : Text) (c : Option ChannelType) (st : Serving)
    → IsHeap st.channels
    → Tidy (joined cfg nick hostname c st)
unfolding joined joined_other write_queue Tidy
joined-Tidy cfg nick hostname none st h = h
joined-Tidy cfg nick hostname (some c) st h =
    then-Tidy (joined_other cfg nick hostname c st) _
      (if_Tidy (same_nocase nick st.nickname) (some st) _ h (
        >>=-Tidy
          (automode_queue st.ident cfg.automodelist nick hostname c.name
            (st.queues c.address, st.automodes))
          _ (λ r e. h)))
      (λ after h'. log_line-IsHeap cfg log_join c _ after h')

enter-IsHeap :
    (nick channel : Text) (key : Option Text) (st : Serving)
    → IsHeap st.channels
    → IsHeap (enter nick channel key st).channels
unfolding enter
enter-IsHeap nick channel key st h =
    if_IsHeap (same_nocase st.nickname nick) _ st
      (channel_add-IsHeap st.channels channel key list_active h) h

pub part_told-channels :
    (cfg : ReplyCfg) (nick : Text) (param2 : Option Text) (c : ChannelType) (st : Serving)
    → (part_told cfg nick param2 c st).channels ≡ st.channels
unfolding part_told write_queue
part_told-channels cfg nick param2 c st =
    log_line-channels cfg log_part c (nick ∷ c.simple_name ∷ text_of param2 ∷ [])
      (write_queue c.address (automode_drop_channel (st.queues c.address) (some nick) any_mode) st)

part_told-IsHeap :
    (cfg : ReplyCfg) (nick : Text) (param2 : Option Text) (c : ChannelType) (st : Serving)
    → IsHeap st.channels
    → IsHeap (part_told cfg nick param2 c st).channels
part_told-IsHeap cfg nick param2 c st h = rw (part_told-channels cfg nick param2 c st) h

part-IsHeap :
    (cfg : ReplyCfg) (nick param1 : Text) (param2 : Option Text) (st : Serving)
    → IsHeap st.channels
    → IsHeap (part cfg nick param1 param2 st).channels
unfolding part
part-IsHeap cfg nick param1 param2 st h = elim (Option-cases (active (unprefixed param1) st)) [
  | inl e ↦ rw (e, part) h
  | inr (c, e) ↦
      rw (e, part)
        (if_IsHeap (same_nocase nick st.nickname) _ _
          (leave-IsHeap cfg c (part_told cfg nick param2 c st)
            (part_told-IsHeap cfg nick param2 c st h))
          (part_told-IsHeap cfg nick param2 c st h))
]

learnt-IsHeap :
    (i : Option ℕ) (hostname param1 : Text) (st : Serving)
    → IsHeap st.channels
    → IsHeap (host_learnt i hostname param1 st).channels
learnt-IsHeap none hostname param1 st h = h
learnt-IsHeap (some i) hostname param1 st h =
    if_IsHeap (st.ident.goodhostname == 0 && same_nocase param1 st.nickname) _ st h h

mode-Tidy :
    (cfg : ReplyCfg) (nick hostname param1 : Text) (param2 : Option Text) (st : Serving)
    → IsHeap st.channels
    → Tidy (mode cfg nick hostname param1 param2 st)
unfolding mode Tidy
mode-Tidy cfg nick hostname param1 param2 st h =
    elim (Option-cases (active param1 (host_learnt (pos hostname b'@') hostname param1 st))) [
      | inl e ↦ rw (e, mode) (learnt-IsHeap (pos hostname b'@') hostname param1 st h)
      | inr (c, e) ↦
          rw (e, mode)
            (>>=-Tidy param2 _ (λ modes q.
              then-Tidy
                (moded_channel modes (some c) (host_learnt (pos hostname b'@') hostname param1 st))
                _
                (moded-Tidy modes (some c) (host_learnt (pos hostname b'@') hostname param1 st)
                  (learnt-IsHeap (pos hostname b'@') hostname param1 st h))
                (λ after h'. log_line-IsHeap cfg log_mode c _ after h')))
    ]

topic-Tidy :
    (cfg : ReplyCfg) (nick param1 : Text) (param2 : Option Text) (st : Serving)
    → IsHeap st.channels
    → Tidy (topic cfg nick param1 param2 st)
unfolding topic topic_logged Tidy
topic-Tidy cfg nick param1 param2 st h = elim (Option-cases (active param1 st)) [
  | inl e ↦ rw (e, topic) h
  | inr (c, e) ↦
      rw (e, topic)
        (if_Tidy (cfg.has_log c log_misc) _ _
          (>>=-Tidy param2 _ (λ text q. write_channel-IsHeap _ st h)) (write_channel-IsHeap _ st h))
]

server_reply-Tidy :
    (cfg : ReplyCfg) (line : Heard) (origin param1 : Text) (param2 : Option Text) (st : Serving)
    → IsHeap st.channels
    → Tidy (server_reply cfg line origin param1 param2 st)
unfolding server_reply join quit kill Tidy
server_reply-Tidy cfg (reply n) origin param1 param2 st h =
    >>=-Tidy param2 _ (λ text q. numeric-Tidy n text st h)
server_reply-Tidy cfg cmd_nick origin param1 param2 st h = nick_changed-IsHeap cfg _ param1 st h
server_reply-Tidy cfg cmd_pong origin param1 param2 st h = h
server_reply-Tidy cfg cmd_kick origin param1 param2 st h = kick-Tidy cfg _ param1 param2 st h
server_reply-Tidy cfg cmd_join origin param1 param2 st h =
    joined-Tidy cfg _ _ _ _ (enter-IsHeap (source origin).0 (unprefixed param1) param2 st h)
server_reply-Tidy cfg cmd_part origin param1 param2 st h = part-IsHeap cfg _ param1 param2 st h
server_reply-Tidy cfg cmd_quit origin param1 param2 st h = h
server_reply-Tidy cfg cmd_kill origin param1 param2 st h =
    if_IsHeap (same_nocase st.nickname (source origin).0) _ st h h
server_reply-Tidy cfg cmd_mode origin param1 param2 st h =
    mode-Tidy cfg (source origin).0 (source origin).1 param1 param2 st h
server_reply-Tidy cfg cmd_topic origin param1 param2 st h = topic-Tidy cfg _ param1 param2 st h

-- Whatever line of the server is read, of those that the model has: no structure of a channel is on two
-- lists or twice on one afterwards, if none was before and the function is no fault.
pub server_reply-IsHeap :
    (cfg : ReplyCfg) (line : Heard) (origin param1 : Text) (param2 : Option Text)
    (st after : Serving)
    → IsHeap st.channels
    → server_reply cfg line origin param1 param2 st ≡ some after
    → IsHeap after.channels
unfolding Tidy
server_reply-IsHeap cfg line origin param1 param2 st after h e =
    rw e at (server_reply-Tidy cfg line origin param1 param2 st h)
