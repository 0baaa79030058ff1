-- ===== src/Qlog/Marks.antt =====
-- Which channels have a quick log after `qlog_check`.
use mathlib.Core.Path.{fun_ext}
use mathlib.Core.Bool.{or_assoc, or-false, or-true}
use miau.Prelude.{
  ℕ, ◌≡◌, inl, inr, refl, ap, ◌∙◌, Bool, false, not, ◌&&◌, ◌||◌, Option, none, some, List, [], ◌∷◌,
  map, Text, Bool-cases, Option-cases, ltb, ◌==◌,
}
use miau.Common.{same_nocase}
use miau.Channels.{
  ChannelType, Channels, list_active, list_old, channel_find, channel_is_name,
  channel_simplify_name, find_in,
}
use miau.Qlog.{
  QlogEntry, Log, qlog_get_channel, third_word, set_hasqlog, mark_one, on_both, mark_line,
  mark_lines, oldest_of, qlog_check,
}

-- The structures with the flags that a function of the address gives.
abbrev pub flagged : (ℕ → Bool) → ChannelType → ChannelType
flagged flags chan = record chan { hasqlog = flags chan.address }

abbrev pub map? : (ChannelType → ChannelType) → Option ChannelType → Option ChannelType
map? f none = none
map? f (some c) = some (f c)

-- Whether a line marks the structure at an address.
unfoldable pub line_marks : Channels → ℕ → QlogEntry → ℕ → Bool
line_marks st oldest entry a =
    (not (ltb entry.timestamp oldest) && entry.privmsg == 0)
    && elim (qlog_get_channel st entry.text) [ none ↦ false | some chan ↦ a == chan.address ]

unfoldable pub marked : Channels → ℕ → Log → ℕ → Bool
marked st oldest [] a = false
marked st oldest (entry ∷ log) a = line_marks st oldest entry a || marked st oldest log a

find_in-flagged :
    (flags : ℕ → Bool) (name sname : Text) (b : Option ChannelType) (cs : List ChannelType)
    → find_in name sname (map? (flagged flags) b) (map (flagged flags) cs)
      ≡ map? (flagged flags) (find_in name sname b cs)
unfolding find_in
find_in-flagged flags name sname b [] = refl
find_in-flagged flags name sname b (c ∷ cs) = elim (Bool-cases (same_nocase c.name name)) [
  | inl e ↦ rw e refl
  | inr e ↦ elim (Bool-cases (same_nocase c.simple_name sname)) [
    | inl f ↦ rw (e, f) (find_in-flagged flags name sname (some c) cs)
    | inr f ↦ rw (e, f) (find_in-flagged flags name sname b cs)
  ]
]

channel_find-active :
    (flags : ℕ → Bool) (st : Channels) (t : Text)
    → channel_find (on_both (flagged flags) st) t list_active
      ≡ map? (flagged flags) (channel_find st t list_active)
unfolding channel_find on_both
channel_find-active flags st t = elim (Bool-cases (channel_is_name (some t) == 0)) [
  | inl e ↦ rw e refl
  | inr e ↦ rw e (find_in-flagged flags t (channel_simplify_name t) none st.active_channels)
]

channel_find-old :
    (flags : ℕ → Bool) (st : Channels) (t : Text)
    → channel_find (on_both (flagged flags) st) t list_old
      ≡ map? (flagged flags) (channel_find st t list_old)
unfolding channel_find on_both
channel_find-old flags st t = elim (Bool-cases (channel_is_name (some t) == 0)) [
  | inl e ↦ rw e refl
  | inr e ↦ rw e (find_in-flagged flags t (channel_simplify_name t) none st.old_channels)
]

-- Flags do not change which channel a line belongs to.
get_channel-flagged :
    (flags : ℕ → Bool) (st : Channels) (msg : Text)
    → qlog_get_channel (on_both (flagged flags) st) msg
      ≡ map? (flagged flags) (qlog_get_channel st msg)
unfolding qlog_get_channel
get_channel-flagged flags st msg = elim (Option-cases (third_word msg)) [
  | inl e ↦ rw (e, qlog_get_channel) refl
  | inr (t, e) ↦ elim (Option-cases (channel_find st t list_active)) [
    | inr (c, f) ↦ rw (e, channel_find-active flags st t, f, qlog_get_channel) refl
    | inl f ↦
        rw (e, channel_find-active flags st t, f, qlog_get_channel) (channel_find-old flags st t)
  ]
]

map-map :
    (f g h : ChannelType → ChannelType)
    → ((c : ChannelType) → f (g c) ≡ h c)
    → (cs : List ChannelType) → map f (map g cs) ≡ map h cs
map-map f g h e [] = refl
map-map f g h e (c ∷ cs) = rw (e c, map-map f g h e cs) refl

on_both-on_both :
    (f g h : ChannelType → ChannelType)
    → ((c : ChannelType) → f (g c) ≡ h c)
    → (st : Channels) → on_both f (on_both g st) ≡ on_both h st
unfolding on_both
on_both-on_both f g h e st =
    rw (map-map f g h e st.active_channels, map-map f g h e st.old_channels) refl

mark_one-flagged :
    (flags : ℕ → Bool) (a : ℕ) (c : ChannelType)
    → mark_one a (flagged flags c) ≡ flagged (λ b. flags b || b == a) c
unfolding mark_one set_hasqlog
mark_one-flagged flags a c = elim (Bool-cases (c.address == a)) [
  | inl e ↦ rw (e, or-true (flags c.address)) refl
  | inr e ↦ rw (e, or-false (flags c.address)) refl
]

same_flags :
    (f g : ℕ → Bool) (st : Channels)
    → ((b : ℕ) → f b ≡ g b)
    → on_both (flagged f) st ≡ on_both (flagged g) st
same_flags f g st h = ap (λ flags. on_both (flagged flags) st) (fun_ext h)

mark_line-flagged :
    (flags : ℕ → Bool) (st : Channels) (oldest : ℕ) (e : QlogEntry)
    → mark_line oldest e (on_both (flagged flags) st)
      ≡ on_both (flagged (λ b. flags b || line_marks st oldest e b)) st
unfolding mark_line line_marks
mark_line-flagged flags st oldest e = elim (Bool-cases (ltb e.timestamp oldest)) [
  | inl old ↦ rw old (same_flags flags _ st (λ b. rw (or-false (flags b)) refl))
  | inr recent ↦ elim (Bool-cases (e.privmsg == 0)) [
    | inr private ↦ rw (recent, private) (same_flags flags _ st (λ b. rw (or-false (flags b)) refl))
    | inl public ↦ elim (Option-cases (qlog_get_channel st e.text)) [
      | inl f ↦
          rw (recent, public, get_channel-flagged flags st e.text, f)
            (same_flags flags _ st (λ b. rw (or-false (flags b)) refl))
      | inr (c, f) ↦
          rw (recent, public, get_channel-flagged flags st e.text, f)
            (on_both-on_both (mark_one c.address) (flagged flags) _
              (mark_one-flagged flags c.address) st)
    ]
  ]
]

mark_lines-flagged :
    (flags : ℕ → Bool) (st : Channels) (oldest : ℕ) (log : Log)
    → mark_lines oldest log (on_both (flagged flags) st)
      ≡ on_both (flagged (λ b. flags b || marked st oldest log b)) st
unfolding mark_lines marked
mark_lines-flagged flags st oldest [] = same_flags flags _ st (λ b. rw (or-false (flags b)) refl)
mark_lines-flagged flags st oldest (e ∷ log) =
    ap (λ s. mark_lines oldest log s) (mark_line-flagged flags st oldest e)
    ∙ mark_lines-flagged (λ b. flags b || line_marks st oldest e b) st oldest log
    ∙ same_flags _ _ st
        (λ b. or_assoc (flags b) (line_marks st oldest e b) (marked st oldest log b))

-- After `qlog_check` a channel on the active or the old list has `hasqlog` set exactly where the log
-- has a line for it that is no private message and not older than the age, an age of 0 standing for any
-- age; the rest of the lists and of each channel is as before.
pub qlog_check-marked :
    (now age : ℕ) (log : Log) (st : Channels)
    → qlog_check now log age st
      ≡ on_both (λ c. set_hasqlog (marked st (oldest_of now age) log c.address) c) st
unfolding qlog_check set_hasqlog
qlog_check-marked now age log st = mark_lines-flagged (λ b. false) st (oldest_of now age) log
