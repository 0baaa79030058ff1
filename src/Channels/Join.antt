-- ===== src/Channels/Join.antt =====
-- src/channels.c: `channel_join_list` for the passive channels, which are joined with one message to
-- the server. The walk goes over the channels as they are when it begins: a step changes the structure
-- of its own channel only, or takes a channel away. That one is its own or one before it, since
-- channel_find gives the first channel with the name, so what is still to be walked over is as it was.
use miau.Prelude.{
  ℕ, ◌≡◌, ◌∙◌, refl, sym, inl, inr, Bool, true, false, ◌&&◌, ◌||◌, Option, some, none, List, [],
  ◌∷◌, ◌++◌, map, append-nil, append_assoc, Text, ◌==◌, if◌then◌else◌, drop, head0, Bool-cases,
  codes, arith,
}
use miau.Prelude.Int.{ℤ, pos, negsuc, dec, above}
use miau.Irc.{cut}
use miau.Channels.{ChannelType, Channels, list_passive, channel_find, channel_rem}

-- The fields of `cfg` that are read.
pub record JoinCfg : Type 0 where
  pub rejoin : ℕ
  pub leave : ℕ
  pub jointries : ℕ

abbrev pub is_unset : ℤ → Bool
is_unset (pos n) = false
is_unset (negsuc n) = n == 0

abbrev pub is_zero : ℤ → Bool
is_zero (pos n) = n == 0
is_zero (negsuc n) = false

-- The tries of a channel at the start of its turn.
unfoldable pub primed : JoinCfg → Bool → ChannelType → ℤ
primed cfg rejoin c =
    if (rejoin || (cfg.rejoin == 1 && cfg.leave == 0)) && is_unset c.jointries
    then (if cfg.jointries == 0
        then pos 1
        else if head0 c.name == b'!'
        then pos 1
        else pos cfg.jointries)
    else c.jointries

-- The structure with the address has new tries.
unfoldable pub set_tries : ℕ → ℤ → List ChannelType → List ChannelType
set_tries a t [] = []
set_tries a t (c ∷ cs) =
    (if c.address == a then record c { jointries = t } else c) ∷ set_tries a t cs

-- The lists, and what was gathered in `chans` and `keys`.
pub record Joining : Type 0 where
  pub channels : Channels
  pub chans : Text
  pub keys : Text

-- The turn of one channel.
unfoldable pub join_one : JoinCfg → Bool → Joining → ChannelType → Joining
unfolding primed set_tries channel_rem channel_find
join_one cfg rejoin j c =
    let st = j.channels in
    let t = primed cfg rejoin c in
    if above 0 t
    then record {
      channels = record st { passive_channels = set_tries c.address (dec t) st.passive_channels };
      chans = j.chans ++ b',' ∷ c.name;
      keys = j.keys ++ b',' ∷ c.key;
    }
    else if is_zero t
    then record j { channels = channel_rem st (channel_find st c.name list_passive) list_passive }
    else j

unfoldable pub join_walk : JoinCfg → Bool → Joining → List ChannelType → Joining
unfolding join_one
join_walk cfg rejoin j [] = j
join_walk cfg rejoin j (c ∷ cs) = join_walk cfg rejoin (join_one cfg rejoin j c) cs

unfoldable pub try_joining : JoinCfg → Bool → List ChannelType → Bool
unfolding primed
try_joining cfg rejoin [] = false
try_joining cfg rejoin (c ∷ cs) = above 0 (primed cfg rejoin c) || try_joining cfg rejoin cs

-- The lists afterwards, and what `irc_write` makes of the message to the server, if there is one.
unfoldable pub channel_join_list : JoinCfg → Bool → Channels → Channels × Option Text
unfolding join_walk try_joining
channel_join_list cfg rejoin st =
    let j =
      join_walk cfg rejoin (record { channels = st; chans = []; keys = [] }) st.passive_channels in
    (
      j.channels,
      if try_joining cfg rejoin st.passive_channels
          then some (cut (codes "JOIN " ++ (drop 1 j.chans ++ b' ' ∷ drop 1 j.keys)))
          else none,
    )

-- The channels that have a try left.
unfoldable pub willing : JoinCfg → Bool → List ChannelType → List ChannelType
unfolding primed
willing cfg rejoin [] = []
willing cfg rejoin (c ∷ cs) =
    let rest = willing cfg rejoin cs in if above 0 (primed cfg rejoin c) then c ∷ rest else rest

abbrev pub not_empty : List ChannelType → Bool
not_empty [] = false
not_empty (c ∷ cs) = true

-- Texts with commas between them.
unfoldable pub with_commas : List Text → Text
with_commas [] = []
with_commas (t ∷ ts) = b',' ∷ (t ++ with_commas ts)

one_joins :
    (cfg : JoinCfg) (rejoin : Bool) (j : Joining) (c : ChannelType)
    → above 0 (primed cfg rejoin c) ≡ true
    → ((join_one cfg rejoin j c).chans ≡ j.chans ++ b',' ∷ c.name)
      × ((join_one cfg rejoin j c).keys ≡ j.keys ++ b',' ∷ c.key)
unfolding join_one
one_joins cfg rejoin j c e = (rw (e, join_one) refl, rw (e, join_one) refl)

one_waits :
    (cfg : JoinCfg) (rejoin : Bool) (j : Joining) (c : ChannelType)
    → above 0 (primed cfg rejoin c) ≡ false
    → ((join_one cfg rejoin j c).chans ≡ j.chans) × ((join_one cfg rejoin j c).keys ≡ j.keys)
unfolding join_one
one_waits cfg rejoin j c e = elim (Bool-cases (is_zero (primed cfg rejoin c))) [
  | inl f ↦ (rw (e, f, join_one) refl, rw (e, f, join_one) refl)
  | inr f ↦ (rw (e, f, join_one) refl, rw (e, f, join_one) refl)
]

-- What the walk gathers is what was there, and the channels with a try left in the order of the list.
walk-gathers :
    (cfg : JoinCfg) (rejoin : Bool) (j : Joining) (cs : List ChannelType)
    → ((join_walk cfg rejoin j cs).chans
        ≡ j.chans ++ with_commas (map (λ (c : ChannelType). c.name) (willing cfg rejoin cs)))
      × ((join_walk cfg rejoin j cs).keys
          ≡ j.keys ++ with_commas (map (λ (c : ChannelType). c.key) (willing cfg rejoin cs)))
unfolding join_walk willing with_commas
walk-gathers cfg rejoin j [] = (sym (append-nil j.chans), sym (append-nil j.keys))
walk-gathers cfg rejoin j (c ∷ cs) =
    let (names, keys) = walk-gathers cfg rejoin (join_one cfg rejoin j c) cs in
    elim (Bool-cases (above 0 (primed cfg rejoin c))) [
      | inl e ↦
          let (n, k) = one_joins cfg rejoin j c e in
          rw (e, willing)
            (
              names ∙ rw n (append_assoc j.chans (b',' ∷ c.name) _),
              keys ∙ rw k (append_assoc j.keys (b',' ∷ c.key) _),
            )
      | inr e ↦
          let (n, k) = one_waits cfg rejoin j c e in
          rw (e, willing) (names ∙ rw n refl, keys ∙ rw k refl)
    ]

try_joining-willing :
    (cfg : JoinCfg) (rejoin : Bool) (cs : List ChannelType)
    → try_joining cfg rejoin cs ≡ not_empty (willing cfg rejoin cs)
unfolding try_joining willing
try_joining-willing cfg rejoin [] = refl
try_joining-willing cfg rejoin (c ∷ cs) = ground (arith, try_joining-willing cfg rejoin cs)

-- The message that joins the passive channels is the first 517 characters of a line that has the names of
-- exactly those with a try left, in the order of the list, and behind them their keys in the same order.
-- There is no message where no channel has a try left.
pub channel_join_list-willing :
    (cfg : JoinCfg) (rejoin : Bool) (st : Channels)
    → let cs = willing cfg rejoin st.passive_channels in
      (channel_join_list cfg rejoin st).1 ≡ (
        if not_empty cs
        then some (
            cut (
              codes "JOIN "
              ++ (drop 1 (with_commas (map (λ (c : ChannelType). c.name) cs))
                  ++ b' ' ∷ drop 1 (with_commas (map (λ (c : ChannelType). c.key) cs)))))
        else none)
unfolding channel_join_list
channel_join_list-willing cfg rejoin st =
    let (names, keys) =
      walk-gathers cfg rejoin (record { channels = st; chans = []; keys = [] })
        st.passive_channels in
    rw (names, keys, try_joining-willing cfg rejoin st.passive_channels) refl
