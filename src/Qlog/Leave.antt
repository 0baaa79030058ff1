-- ===== src/Qlog/Leave.antt =====
-- src/channels.c: `channel_rem` with the look through the quick log that it begins with, for a channel
-- that is left: it is kept for the replay of its lines where it has some.
use miau.Prelude.{
  ℕ, ◌*◌, ◌≡◌, inl, inr, refl, ap, ◌∙◌, Bool, true, Option, none, some, List, [], ◌∷◌, ◌++◌, map,
  arith, Bool-cases, ◌==◌, if◌then◌else◌,
}
use miau.Channels.{
  ChannelType, Channels, ListId, list_active, list_passive, list_old, channel_rem, delete, is_on,
}
use miau.Qlog.{Log, on_both, set_hasqlog, oldest_of, qlog_check}
use miau.Qlog.Marks.{marked, map?, qlog_check-marked}

-- The structure at an address.
unfoldable pub lookup : ℕ → List ChannelType → Option ChannelType
lookup a [] = none
lookup a (c ∷ cs) = let rest = lookup a cs in if c.address == a then some c else rest

-- What a pointer to an active channel points to now.
unfoldable pub current : Channels → ChannelType → ChannelType
unfolding lookup
current st c = elim (lookup c.address st.active_channels) [ none ↦ c | some d ↦ d ]

-- `channel_rem` from its beginning on.
unfoldable pub channel_rem_checked : ℕ → ℕ → Log → Channels → Option ChannelType → ListId → Channels
unfolding qlog_check channel_rem current
channel_rem_checked now qloglength log st chptr list_active =
    let checked = qlog_check now log (qloglength * 60) st in
    channel_rem checked (map? (current checked) chptr) list_active
channel_rem_checked now qloglength log st chptr list_passive = channel_rem st chptr list_passive
channel_rem_checked now qloglength log st chptr list_old = channel_rem st chptr list_old

abbrev pub refreshed : (ℕ → Bool) → ChannelType → ChannelType
refreshed flags c = set_hasqlog (flags c.address) c

lookup-map :
    (flags : ℕ → Bool) (a : ℕ) (cs : List ChannelType)
    → lookup a (map (refreshed flags) cs) ≡ map? (refreshed flags) (lookup a cs)
unfolding lookup set_hasqlog
lookup-map flags a [] = refl
lookup-map flags a (c ∷ cs) = elim (Bool-cases (c.address == a)) [
  | inl e ↦ rw e refl
  | inr e ↦ rw e (lookup-map flags a cs)
]

is_on-lookup :
    (flags : ℕ → Bool) (a : ℕ) (cs : List ChannelType) (c : ChannelType)
    → lookup a cs ≡ some c
    → is_on a (map (refreshed flags) cs) ≡ true
unfolding lookup is_on set_hasqlog
is_on-lookup flags a [] c h = absurd (ground arith)
is_on-lookup flags a (d ∷ cs) c h = elim (Bool-cases (d.address == a)) [
  | inl e ↦ rw e refl
  | inr e ↦ rw e (is_on-lookup flags a cs c (rw e at h))
]

-- The lists with the flags up to date, and without the channel.
abbrev pub left_behind : (ℕ → Bool) → Channels → ℕ → Channels
left_behind flags st a = record (on_both (refreshed flags) st) {
  active_channels = delete a (map (refreshed flags) st.active_channels);
}

current-refreshed :
    (flags : ℕ → Bool) (st : Channels) (c : ChannelType)
    → lookup c.address st.active_channels ≡ some c
    → current (on_both (refreshed flags) st) c ≡ refreshed flags c
unfolding current on_both
current-refreshed flags st c h = rw (lookup-map flags c.address st.active_channels, h, current) refl

rem-refreshed :
    (flags : ℕ → Bool) (st : Channels) (c : ChannelType)
    → lookup c.address st.active_channels ≡ some c
    → channel_rem
        (on_both (refreshed flags) st)
        (some (current (on_both (refreshed flags) st) c))
        list_active
      ≡ (if flags c.address
          then record (left_behind flags st c.address) {
            old_channels = map (refreshed flags) st.old_channels ++ refreshed flags c ∷ [];
          }
          else left_behind flags st c.address)
unfolding channel_rem on_both set_hasqlog
rem-refreshed flags st c h =
    ap (λ d. channel_rem (on_both (refreshed flags) st) (some d) list_active)
      (current-refreshed flags st c h)
    ∙ rw (is_on-lookup flags c.address st.active_channels c h, channel_rem) refl

-- Where the pointer is to an active channel: the channel leaves the active list, and goes to the end of
-- the old ones, with `hasqlog` set, exactly where the quick log has a line for it that is recent enough
-- and no private message. `hasqlog` of the other channels is up to date then as well.
pub channel_rem_checked-marked :
    (now qloglength : ℕ) (log : Log) (st : Channels) (c : ChannelType)
    → lookup c.address st.active_channels ≡ some c
    → let flags = marked st (oldest_of now (qloglength * 60)) log in
      channel_rem_checked now qloglength log st (some c) list_active ≡ (
        if flags c.address
        then record (left_behind flags st c.address) {
          old_channels = map (refreshed flags) st.old_channels ++ refreshed flags c ∷ [];
        }
        else left_behind flags st c.address)
unfolding channel_rem_checked
channel_rem_checked-marked now q log st c h =
    let flags = marked st (oldest_of now (q * 60)) log in
    ap (λ s. channel_rem s (some (current s c)) list_active) (qlog_check-marked now (q * 60) log st)
    ∙ rem-refreshed flags st c h
