-- ===== src/Server/Tracked.antt =====
-- src/server.c: numeric replies keep the lists of channels in order.
use miau.Prelude.{
  ℕ, ◌*◌, ◌≡◌, inl, inr, refl, Bool, true, false, Option, none, some, List, [], ◌∷◌, Text, map,
  arith, Bool-cases, Option-cases, if◌then◌else◌,
}
use miau.Prelude.Int.{above}
use miau.Tools.{pos}
use miau.Server.Modes.{parse_modes}
use miau.Prelude.Strings.{◌>>=◌, tokens_by}
use miau.Channels.{ChannelType, Channels, list_active, list_passive, channel_find}
use miau.Channels.Heap.{times, places, IsHeap}
use miau.Channels.Remove.{channel_rem-IsHeap}
use miau.Qlog.{on_both, set_hasqlog, oldest_of, qlog_check}
use miau.Qlog.Marks.{marked, map?, qlog_check-marked}
use miau.Qlog.Leave.{channel_rem_checked, refreshed, current}
use miau.Server.Reply.{
  LogType, Serving, ReplyCfg, unknown, cut_at, put, write_channel, write_queue, active, write_found,
  no_topic, topic_is, topic_who_when, moded_channel, mode_is, names_in, names_are, join_failed,
}
use miau.Server.Heard.{
  log_line, leave, Numeric, rpl_notopic, rpl_topic, rpl_topicwho, rpl_channelmodeis, rpl_namreply,
  err_join, numeric,
}

times-put :
    (a b : ℕ) (d : ChannelType) (cs : List ChannelType)
    → d.address ≡ b
    → times a (put b d cs) ≡ times a cs
unfolding times put
times-put a b d [] e = refl
times-put a b d (c ∷ cs) e = ground (arith, times-put a b d cs e)

pub write_channel-IsHeap :
    (d : ChannelType) (st : Serving) → IsHeap st.channels → IsHeap (write_channel d st).channels
unfolding write_channel IsHeap places
write_channel-IsHeap d st h a =
    let same = times-put a d.address d st.channels.active_channels refl in
    (omega (arith, same, (h a).0), λ le. omega (arith, same, (h a).1 le))

pub times-refreshed :
    (flags : ℕ → Bool) (a : ℕ) (cs : List ChannelType)
    → times a (map (refreshed flags) cs) ≡ times a cs
unfolding times set_hasqlog
times-refreshed flags a [] = refl
times-refreshed flags a (c ∷ cs) = rw (times-refreshed flags a cs) refl

pub refreshed-IsHeap :
    (flags : ℕ → Bool) (st : Channels) → IsHeap st → IsHeap (on_both (refreshed flags) st)
unfolding on_both IsHeap places
refreshed-IsHeap flags st h a =
    let live = times-refreshed flags a st.active_channels in
    let old = times-refreshed flags a st.old_channels in
    (omega (arith, live, old, (h a).0), λ le. omega (arith, live, old, (h a).1 le))

pub leave-IsHeap :
    (cfg : ReplyCfg) (c : ChannelType) (st : Serving)
    → IsHeap st.channels
    → IsHeap (leave cfg c st).channels
unfolding leave channel_rem_checked write_queue
leave-IsHeap cfg c st h =
    channel_rem-IsHeap (qlog_check cfg.now cfg.qlog (cfg.qloglength * 60) st.channels)
      (map? (current (qlog_check cfg.now cfg.qlog (cfg.qloglength * 60) st.channels)) (some c))
      list_active
      (rw (qlog_check-marked cfg.now (cfg.qloglength * 60) cfg.qlog st.channels) (
        refreshed-IsHeap (marked st.channels (oldest_of cfg.now (cfg.qloglength * 60)) cfg.qlog)
          st.channels h))

-- The channels of a result, if there is one.
unfoldable pub Tidy : Option Serving → Type 0
Tidy none = Unit
Tidy (some st) = IsHeap st.channels

pub >>=-Tidy :
    {A : Type 0} (r : Option A) (f : A → Option Serving)
    → ((a : A) → r ≡ some a → Tidy (f a))
    → Tidy (r >>= f)
unfolding Tidy
>>=-Tidy none f h = tt
>>=-Tidy (some a) f h = h a refl

pub then-Tidy :
    (r : Option Serving) (f : Serving → Option Serving)
    → Tidy r
    → ((st : Serving) → IsHeap st.channels → Tidy (f st))
    → Tidy (r >>= f)
unfolding Tidy
then-Tidy none f t h = tt
then-Tidy (some st) f t h = h st t

pub if_Tidy : (b : Bool) (x y : Option Serving) → Tidy x → Tidy y → Tidy (if b then x else y)
if_Tidy true x y hx hy = hx
if_Tidy false x y hx hy = hy

pub if_IsHeap :
    (b : Bool) (x y : Serving)
    → IsHeap x.channels
    → IsHeap y.channels
    → IsHeap (if b then x else y).channels
if_IsHeap true x y hx hy = hx
if_IsHeap false x y hx hy = hy

write_found-IsHeap :
    (c : Option ChannelType) (f : ChannelType → ChannelType) (st : Serving)
    → IsHeap st.channels
    → IsHeap (write_found c f st).channels
write_found-IsHeap none f st h = h
write_found-IsHeap (some c) f st h = write_channel-IsHeap (f c) st h

pub log_line-channels :
    (cfg : ReplyCfg) (kind : LogType) (c : ChannelType) (args : List Text) (st : Serving)
    → (log_line cfg kind c args st).channels ≡ st.channels
unfolding log_line
log_line-channels cfg kind c args st = elim (Bool-cases (cfg.has_log c kind)) [
  | inl e ↦ rw (e, log_line) refl
  | inr e ↦ rw (e, log_line) refl
]

pub moded-Tidy :
    (original : Text) (c : Option ChannelType) (st : Serving)
    → IsHeap st.channels
    → Tidy (moded_channel original c st)
unfolding moded_channel Tidy write_queue
moded-Tidy original none st h = h
moded-Tidy original (some c) st h =
    elim (Option-cases (
      parse_modes st.nickname original
        (record { key = c.key; oper = c.oper; mode_queue = st.queues c.address }))) [
          | inl e ↦ rw (e, moded_channel) tt
          | inr (m, e) ↦ rw (e, moded_channel) (write_channel-IsHeap _ st h)
        ]

names_in-IsHeap :
    (c : Option ChannelType) (nicks : List Text) (st : Serving)
    → IsHeap st.channels
    → IsHeap (names_in c nicks st).channels
unfolding names_in
names_in-IsHeap none nicks st h = h
names_in-IsHeap (some c) nicks st h =
    if_IsHeap (unknown c.oper) _ st (write_channel-IsHeap _ st h) h

names_are-IsHeap :
    (parts : Option (Text × Text)) (st : Serving)
    → IsHeap st.channels
    → IsHeap (names_are parts st).channels
unfolding names_are
names_are-IsHeap none st h = h
names_are-IsHeap (some (kind, rest)) st h =
    elim (tokens_by b' ' [] rest)
      as (λ words.
        IsHeap
          (elim words as (λ _. Serving) [
            | [] ↦ st
            | channel ∷ nicks ↦ names_in (active channel st) nicks st
          ]).channels) [ [] ↦ h | channel ∷ nicks ↦ names_in-IsHeap (active channel st) nicks st h ]

join_failed-IsHeap :
    (words : List Text) (st : Serving) → IsHeap st.channels → IsHeap (join_failed words st).channels
unfolding join_failed
join_failed-IsHeap [] st h = h
join_failed-IsHeap (channel ∷ rest) st h =
    elim (Option-cases (channel_find st.channels channel list_passive)) [
      | inl e ↦ rw (e, join_failed) h
      | inr (c, e) ↦ rw (e, join_failed) (if_IsHeap (above 0 c.jointries) _ st h h)
    ]

pub numeric-Tidy :
    (n : Numeric) (param2 : Text) (st : Serving) → IsHeap st.channels → Tidy (numeric n param2 st)
unfolding numeric Tidy no_topic topic_is topic_who_when mode_is
numeric-Tidy rpl_notopic param2 st h = elim (Option-cases (cut_at (pos param2 b' ') param2)) [
  | inl e ↦ rw (e) h
  | inr (p, e) ↦ rw (e) (write_found-IsHeap (active p.0 st) _ st h)
]
numeric-Tidy rpl_topic param2 st h = elim (Option-cases (cut_at (pos param2 b' ') param2)) [
  | inl e ↦ rw (e) h
  | inr (p, e) ↦ rw (e) (write_found-IsHeap (active p.0 st) _ st h)
]
numeric-Tidy rpl_topicwho param2 st h = elim (Option-cases (cut_at (pos param2 b' ') param2)) [
  | inl e ↦ rw (e, numeric) h
  | inr (p, e) ↦ elim (Option-cases (cut_at (pos p.1 b' ') p.1)) [
    | inl f ↦ rw (e, numeric, f) h
    | inr (q, f) ↦ rw (e, numeric, f) (write_found-IsHeap (active p.0 st) _ st h)
  ]
]
numeric-Tidy rpl_channelmodeis param2 st h = elim (Option-cases (cut_at (pos param2 b' ') param2)) [
  | inl e ↦ rw (e) h
  | inr (p, e) ↦ rw (e) (moded-Tidy p.1 (active p.0 st) st h)
]
numeric-Tidy rpl_namreply param2 st h = names_are-IsHeap (cut_at (pos param2 b' ') param2) st h
numeric-Tidy err_join param2 st h = join_failed-IsHeap (tokens_by b' ' [] param2) st h
