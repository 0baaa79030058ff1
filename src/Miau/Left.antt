-- ===== src/Miau/Left.antt =====
-- src/miau.c: where the channels are when the last client has left, which of them the server is told of,
-- and that miau is marked away once.
use miau.Prelude.{
  ℕ, ◌≡◌, ◌≢◌, ◌∙◌, inl, inr, refl, ap, Bool, true, false, not, ◌&&◌, ◌||◌, Option, none, some,
  List, [], ◌∷◌, ◌++◌, Text, map, All, append-nil, append_assoc, arith, Bool-cases, ◌==◌, ==_ne,
  if◌then◌else◌, drop,
}
use miau.Prelude.Strings.{fields_by}
use miau.Channels.{ChannelType, Channels}
use miau.Channels.Heap.{times, places, IsHeap, times-append}
use miau.Miau.Away.{
  AwayCfg, Away, mark_away, given, set_away, chan_list, demoted, left_channels, leave_channels,
  clients_left, is_none, chosen,
}

times-demoted : (a : ℕ) (cs : List ChannelType) → times a (map demoted cs) ≡ times a cs
unfolding times
times-demoted a [] = refl
times-demoted a (c ∷ cs) = rw (times-demoted a cs) refl

left_channels-IsHeap : (cfg : AwayCfg) (st : Channels) → IsHeap st → IsHeap (left_channels cfg st)
unfolding left_channels IsHeap places times
left_channels-IsHeap cfg st h a = elim (Bool-cases (cfg.leave == 0)) [
  | inl e ↦ rw e (h a)
  | inr e ↦ elim (Bool-cases cfg.rejoin) [
    | inl f ↦
        let all = times-append a st.passive_channels (map demoted st.active_channels) in
        let same = times-demoted a st.active_channels in
        rw (e, f) (omega (arith, all, same, (h a).0), λ le. omega (arith, all, same, (h a).1 le))
    | inr f ↦ rw (e, f) (omega (arith, (h a).0), λ le. omega (arith, (h a).1 le))
  ]
]

if_channels :
    (b : Bool) (x y : Away) (cs : Channels)
    → x.channels ≡ cs
    → y.channels ≡ cs
    → (if b then x else y).channels ≡ cs
if_channels true x y cs hx hy = hx
if_channels false x y cs hx hy = hy

given-channels : (msg : Option Text) (st : Away) → (given msg st).channels ≡ st.channels
given-channels none st = refl
given-channels (some m) st = refl

set_away-channels :
    (cfg : AwayCfg) (msg : Option Text) (st : Away) → (set_away cfg msg st).channels ≡ st.channels
unfolding set_away mark_away
set_away-channels cfg msg st =
    if_channels (not (st.connected == 2) || is_none msg && is_none cfg.awaymsg) _ _ _ refl (
      if_channels st.custom _ _ _ (if_channels st.away _ _ _ refl refl) (
        if_channels (is_none msg && not (st.clients == 0)) _ _ _ refl
          (if_channels (given msg st).away _ _ _ (given-channels msg st) (given-channels msg st))))

left_channels-nothing :
    (cfg : AwayCfg) (st : Channels) → st.active_channels ≡ [] → st ≡ left_channels cfg st
unfolding left_channels
left_channels-nothing cfg st h = elim (Bool-cases (cfg.leave == 0)) [
  | inl e ↦ rw e refl
  | inr e ↦ elim (Bool-cases cfg.rejoin) [
    | inl f ↦ rw (h, e, f, append-nil st.passive_channels) refl
    | inr f ↦ rw (h, e, f) refl
  ]
]

leave_channels-channels :
    (cfg : AwayCfg) (reason : Option Text) (st : Away) (cs : List ChannelType)
    → st.channels.active_channels ≡ cs
    → (leave_channels cfg reason st).channels ≡ left_channels cfg st.channels
unfolding leave_channels
leave_channels-channels cfg reason st [] e =
    rw e (left_channels-nothing cfg (record st.channels { active_channels = [] }) refl)
leave_channels-channels cfg reason st (c ∷ cs) e = rw e refl

clients_left-channels :
    (cfg : AwayCfg) (reason : Option Text) (st : Away)
    → (clients_left cfg reason st).channels ≡ left_channels cfg st.channels
unfolding clients_left
clients_left-channels cfg reason st =
    let parted = leave_channels cfg reason st in
    let away = set_away cfg (chosen cfg.usequitmsg reason cfg.awaymsg) parted in
    let same = leave_channels-channels cfg reason st st.channels.active_channels refl in
    if_channels cfg.autoaway away parted (left_channels cfg st.channels)
      (set_away-channels cfg (chosen cfg.usequitmsg reason cfg.awaymsg) parted ∙ same) same

left_channels-active :
    (cfg : AwayCfg) (st : Channels) → cfg.leave ≢ 0 → (left_channels cfg st).active_channels ≡ []
unfolding left_channels
left_channels-active cfg st ne =
    rw (==_ne cfg.leave 0 ne)
      (elim (Bool-cases cfg.rejoin) [ inl f ↦ rw f refl | inr f ↦ rw f refl ])

-- Once the last client has left: no structure of a channel is on two lists or twice on one, if none was
-- before; and where channels are to be left, none is active any more.
pub clients_left-IsHeap :
    (cfg : AwayCfg) (reason : Option Text) (st : Away)
    → IsHeap st.channels
    → IsHeap (clients_left cfg reason st).channels
      × (cfg.leave ≢ 0 → (clients_left cfg reason st).channels.active_channels ≡ [])
clients_left-IsHeap cfg reason st h =
    let same = clients_left-channels cfg reason st in
    (
      rw same (left_channels-IsHeap cfg st.channels h),
      λ ne. rw same (left_channels-active cfg st.channels ne),
    )

-- No name of a channel has a comma.
abbrev pub NoComma : Text → Type 0
NoComma = All (λ c. (c == b',') ≡ false)

fields_by-append :
    (part name rest : Text)
    → NoComma name
    → fields_by b',' part (name ++ rest) ≡ fields_by b',' (part ++ name) rest
fields_by-append part [] rest h = rw (append-nil part) refl
fields_by-append part (c ∷ name) rest (h, hs) =
    rw h
      (fields_by-append (part ++ c ∷ []) name rest hs ∙ rw (append_assoc part (c ∷ []) name) refl)

fields_by-chan_list :
    (part : Text) (cs : List ChannelType)
    → All (λ (c : ChannelType). NoComma c.name) cs
    → fields_by b',' part (chan_list cs) ≡ part ∷ map (λ (c : ChannelType). c.name) cs
unfolding chan_list
fields_by-chan_list part [] h = refl
fields_by-chan_list part (c ∷ cs) (h, hs) =
    ap (λ fs. part ∷ fs)
      (fields_by-append [] c.name (chan_list cs) h ∙ fields_by-chan_list c.name cs hs)

-- The list of names in a PART.
pub chan_list-names :
    (c : ChannelType) (cs : List ChannelType)
    → All (λ (d : ChannelType). NoComma d.name) (c ∷ cs)
    → fields_by b',' [] (drop 1 (chan_list (c ∷ cs))) ≡ map (λ (d : ChannelType). d.name) (c ∷ cs)
unfolding chan_list
chan_list-names c cs (h, hs) =
    fields_by-append [] c.name (chan_list cs) h ∙ fields_by-chan_list c.name cs hs
