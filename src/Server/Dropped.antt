-- ===== src/Server/Dropped.antt =====
-- Where the channels are after a connection has ended.
use miau.Prelude.{
  ℕ, ◌-◌, ◌↔◌, take, codes, ◌≤◌, ◌≡◌, ◌≢◌, ◌⊎◌, inl, inr, refl, sym, ap, ◌∙◌, true, false, Option,
  none, some, List, [], ◌∷◌, ◌++◌, Text, map, append-nil, append_assoc, arith, Bool-cases, ◌==◌,
  ==_refl, ==_ne, ℕ_discrete, if◌then◌else◌,
}
use miau.Irc.{Flood, irc_clear_queue, irc_msglen}
use miau.Channels.{ChannelType, Channels}
use miau.Channels.Heap.{times, places, IsHeap, times-append}
use miau.Server.Drop.{
  leave_notice, DropCfg, Link, part_reason, reverted, drop_channels, dropped, say_quit, forget,
  server_drop,
}

-- The passive channels after the walk.
unfoldable pub kept : DropCfg → List ChannelType → List ChannelType → List ChannelType
kept cfg active passive = if cfg.rejoin == 1 then passive ++ map reverted active else passive

kept-cons :
    (cfg : DropCfg) (c : ChannelType) (active passive : List ChannelType)
    → kept cfg active (if cfg.rejoin == 1 then passive ++ reverted c ∷ [] else passive)
      ≡ kept cfg (c ∷ active) passive
unfolding kept
kept-cons cfg c active passive = elim (Bool-cases (cfg.rejoin == 1)) [
  | inl e ↦ rw (e, kept) (append_assoc passive (reverted c ∷ []) (map reverted active))
  | inr e ↦ rw (e, kept) refl
]

walk-kept :
    (cfg : DropCfg) (reason : Text) (active passive : List ChannelType) (told : List Text)
    → (drop_channels cfg reason active passive told).0 ≡ kept cfg active passive
unfolding drop_channels kept
walk-kept cfg reason [] passive told = elim (Bool-cases (cfg.rejoin == 1)) [
  | inl e ↦ rw e (sym (append-nil passive))
  | inr e ↦ rw e refl
]
walk-kept cfg reason (c ∷ active) passive told =
    walk-kept cfg reason active (if cfg.rejoin == 1 then passive ++ reverted c ∷ [] else passive)
      (told ++ leave_notice cfg c.name reason)
    ∙ kept-cons cfg c active passive

times-reverted : (a : ℕ) (cs : List ChannelType) → times a (map reverted cs) ≡ times a cs
unfolding times reverted
times-reverted a [] = refl
times-reverted a (c ∷ cs) = elim (Bool-cases (c.address == a)) [
  | inl e ↦ rw (e, times-reverted a cs) refl
  | inr e ↦ rw (e, times-reverted a cs) refl
]

true-false : true ≢ false
true-false e = ground arith

-- No structure is in more places than before, and in as many if the channels are to be joined again.
places-kept :
    (a : ℕ) (cfg : DropCfg) (st : Channels)
    → (places a (dropped st (kept cfg st.active_channels st.passive_channels)) ≤ places a st)
      × (cfg.rejoin ≡ 1
          → places a (dropped st (kept cfg st.active_channels st.passive_channels)) ≡ places a st)
unfolding places kept times
places-kept a cfg st = elim (Bool-cases (cfg.rejoin == 1)) [
  | inl e ↦
      rw (e, kept)
        (
          omega (
            arith,
            times-append a st.passive_channels (map reverted st.active_channels),
            times-reverted a st.active_channels,
          ),
          λ r. omega (
            arith,
            times-append a st.passive_channels (map reverted st.active_channels),
            times-reverted a st.active_channels,
          ),
        )
  | inr e ↦ rw (e, kept) (omega arith, λ r. absurd (true-false (sym (==_refl cfg.rejoin 1 r) ∙ e)))
]

-- A reason, or no connection to say good-bye on.
abbrev pub Explained : Option Text → Link → Type 0
Explained reason st = (reason ≢ none) ⊎ (st.socket ≡ 0)

quits :
    (reason : Option Text) (st : Link)
    → Explained reason st
    → (closed : Link) × (say_quit reason st ≡ some closed)
      × (closed.channels ≡ st.channels)
      × (closed.flood ≡ st.flood)
unfolding say_quit
quits (some text) st h = elim (Bool-cases (st.socket == 0)) [
  | inl e ↦ (st, rw e refl, refl, refl)
  | inr e ↦ (
    record st {
      socket = 0;
      quit = some (take (irc_msglen - 1) (codes "QUIT :" ++ text ++ 13 ∷ 10 ∷ []));
    },
    rw e refl,
    refl,
    refl,
  )
]
quits none st (inl ne) = absurd (ne refl)
quits none st (inr e) = (st, rw (==_refl st.socket 0 e) refl, refl, refl)

-- With a reason, or without a connection: the function is no fault. No channel is active any more; if
-- they are to be joined again, they are behind the other passive ones, in order, under their simple
-- names, and otherwise the passive ones stay as they are. No message waits, and miau is not connected.
pub server_drop-kept :
    (cfg : DropCfg) (reason : Option Text) (st : Link)
    → Explained reason st
    → (after : Link) × (server_drop cfg reason st ≡ some after)
      × (after.channels
          ≡ dropped st.channels (kept cfg st.channels.active_channels st.channels.passive_channels))
      × (after.flood.msg_queue ≡ [])
      × (after.connected ≡ 0)
unfolding server_drop forget irc_clear_queue
server_drop-kept cfg reason st h =
    let (closed, e, same, flood) =
      quits reason (record st { flood = irc_clear_queue st.flood }) h in
    (
      forget cfg (part_reason reason) closed,
      rw (e, server_drop) refl,
      ap
            (λ c.
              dropped c
                (drop_channels cfg (part_reason reason) c.active_channels c.passive_channels
                  closed.told).0)
            same
          ∙ ap (dropped st.channels) (
              walk-kept cfg (part_reason reason) st.channels.active_channels
                st.channels.passive_channels closed.told),
      ap (λ (f : Flood). f.msg_queue) flood,
      refl,
    )

no_reason : (st : Link) → st.socket ≢ 0 → say_quit none st ≡ none
unfolding say_quit
no_reason st ne = rw (==_ne st.socket 0 ne) refl

none-some : (st : Link) → none ≢ some st
none-some st e = ground arith

some-none : (text : Text) → none ≢ some text
some-none text e = ground arith

-- The function is a fault exactly where there is a connection and no reason.
pub server_drop-faults_iff :
    (cfg : DropCfg) (reason : Option Text) (st : Link)
    → (server_drop cfg reason st ≡ none) ↔ ((reason ≡ none) × (st.socket ≢ 0))
unfolding server_drop say_quit
server_drop-faults_iff cfg (some text) st =
    let (closed, e, same, flood) =
      quits (some text) (record st { flood = irc_clear_queue st.flood })
        (inl λ n. some-none text (sym n)) in
    (
      λ f. absurd (none-some (forget cfg text closed) (sym f ∙ rw (e, server_drop) refl)),
      λ f. absurd (some-none text (sym f.0)),
    )
server_drop-faults_iff cfg none st = elim (ℕ_discrete st.socket 0) [
  | yes e ↦ (
    λ f.
        let (after, g, same, queue, connected) = server_drop-kept cfg none st (inr e) in
        absurd (none-some after (sym f ∙ g)),
    λ f. absurd (f.1 e),
  )
  | no ne ↦ (
    λ f. (refl, ne),
    λ f. rw (no_reason (record st { flood = irc_clear_queue st.flood }) ne, server_drop) refl,
  )
]

dropped-IsHeap :
    (cfg : DropCfg) (st : Channels)
    → IsHeap st
    → IsHeap (dropped st (kept cfg st.active_channels st.passive_channels))
unfolding IsHeap
dropped-IsHeap cfg st h a =
    let (le, same) = places-kept a cfg st in
    let (one, fresh) = h a in (omega (arith, le, one), λ n. omega (arith, le, fresh n))

-- No structure is on two lists or twice on one after a connection has ended, if none was before and the
-- function is no fault.
pub server_drop-IsHeap :
    (cfg : DropCfg) (reason : Option Text) (st : Link)
    → Explained reason st
    → IsHeap st.channels
    → (after : Link) × (server_drop cfg reason st ≡ some after) × IsHeap after.channels
server_drop-IsHeap cfg reason st h heap =
    let (after, e, same, queue, connected) = server_drop-kept cfg reason st h in
    (after, e, rw same (dropped-IsHeap cfg st.channels heap))
