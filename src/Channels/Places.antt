-- ===== src/Channels/Places.antt =====
-- Adding a channel: no structure is on two lists or twice on one, whatever is added.
use miau.Prelude.{
  ℕ, suc, ◌≤◌, ◌≡◌, ◌≢◌, inl, inr, refl, Option, some, Text, arith, Option-cases, ℕ_discrete,
}
use miau.Channels.{
  ListId, list_active, list_passive, list_old, ChannelType, Channels, channel_find, channel_add,
  add_new, create, move, activate, name_known, simple_known, list_of,
}
use miau.Channels.Heap.{
  times, places, IsHeap, times-found, times_last_same, times_last_other, moved_times,
}

activate-address : (channel : Text) (c : ChannelType) → (activate channel c).address ≡ c.address
unfolding name_known simple_known
activate-address channel c = ground arith

passive_not_active : list_passive ≢ list_active
passive_not_active e = ground arith

old_not_active : list_old ≢ list_active
old_not_active e = ground arith

places-move :
    (a : ℕ) (st : Channels) (channel : Text) (c : ChannelType) (source : ListId)
    → source ≢ list_active
    → 1 ≤ times c.address (list_of st source)
    → places a (move st channel c source).1 ≡ places a st
unfolding places move
places-move a st channel c list_active ne h = absurd (ne refl)
places-move a st channel c list_passive ne h = omega (
  arith,
  moved_times a c (activate channel c) st.passive_channels st.active_channels
      (activate-address channel c) h,
)
places-move a st channel c list_old ne h = omega (
  arith,
  moved_times a c (activate channel c) st.old_channels st.active_channels
      (activate-address channel c) h,
)

places-create :
    (a : ℕ) (st : Channels) (channel : Text) (key : Option Text) (list : ListId)
    → (st.next ≡ a → places a (create st channel key list).1 ≡ suc (places a st))
      × (st.next ≢ a → places a (create st channel key list).1 ≡ places a st)
unfolding places create
places-create a st channel key list_active = (
  λ e. omega (arith, times_last_same a (create st channel key list_active).0 st.active_channels e),
  λ ne.
      omega (arith, times_last_other a (create st channel key list_active).0 st.active_channels ne),
)
places-create a st channel key list_passive = (
  λ e.
      omega (arith, times_last_same a (create st channel key list_passive).0 st.passive_channels e),
  λ ne.
      omega
        (arith, times_last_other a (create st channel key list_passive).0 st.passive_channels ne),
)
places-create a st channel key list_old = (
  λ e. omega (arith, times_last_same a (create st channel key list_old).0 st.old_channels e),
  λ ne. omega (arith, times_last_other a (create st channel key list_old).0 st.old_channels ne),
)

next-create :
    (st : Channels) (channel : Text) (key : Option Text) (list : ListId)
    → (create st channel key list).1.next ≡ suc st.next
unfolding create
next-create st channel key list_active = refl
next-create st channel key list_passive = refl
next-create st channel key list_old = refl

next-move :
    (st : Channels) (channel : Text) (c : ChannelType) (source : ListId)
    → (move st channel c source).1.next ≡ st.next
unfolding move
next-move st channel c list_active = refl
next-move st channel c list_passive = refl
next-move st channel c list_old = refl

create-IsHeap :
    (st : Channels) (channel : Text) (key : Option Text) (list : ListId)
    → IsHeap st
    → IsHeap (create st channel key list).1
unfolding IsHeap
create-IsHeap st channel key list h a =
    let (same, other) = places-create a st channel key list in
    let (one, fresh) = h a in
    elim (ℕ_discrete st.next a) [
      | yes e ↦ (
        omega (arith, same e, one, fresh, e),
        λ le. omega (arith, next-create st channel key list, le, e),
      )
      | no ne ↦ (
        omega (arith, other ne, one),
        λ le. omega (arith, other ne, fresh, le, ne, next-create st channel key list),
      )
    ]

move-IsHeap :
    (st : Channels) (channel : Text) (c : ChannelType) (source : ListId)
    → source ≢ list_active
    → channel_find st channel source ≡ some c
    → IsHeap st
    → IsHeap (move st channel c source).1
unfolding IsHeap
move-IsHeap st channel c source ne found h a =
    let same = places-move a st channel c source ne (times-found st channel source c found) in
    let (one, fresh) = h a in
    (omega (arith, same, one), λ le. omega (arith, same, fresh, next-move st channel c source, le))

add_new-IsHeap :
    (st : Channels) (channel : Text) (key : Option Text) (list : ListId)
    → IsHeap st
    → IsHeap (add_new st channel key list).1
unfolding add_new
add_new-IsHeap st channel key list_active h =
    elim (Option-cases (channel_find st channel list_passive)) [
      | inr (c, e) ↦
          rw (e, add_new) (move-IsHeap st channel c list_passive (λ q. passive_not_active q) e h)
      | inl e ↦ elim (Option-cases (channel_find st channel list_old)) [
        | inr (c, f) ↦
            rw (e, f, add_new) (move-IsHeap st channel c list_old (λ q. old_not_active q) f h)
        | inl f ↦ rw (e, f, add_new) (create-IsHeap st channel key list_active h)
      ]
    ]
add_new-IsHeap st channel key list_passive h =
    elim (Option-cases (channel_find st channel list_passive)) [
      | inr (c, e) ↦ rw (e, add_new) h
      | inl e ↦ rw (e, add_new) (create-IsHeap st channel key list_passive h)
    ]
add_new-IsHeap st channel key list_old h = create-IsHeap st channel key list_old h

-- Whatever channel is added to whatever list, no structure is on two lists or twice on one afterwards,
-- if none was before.
pub channel_add-IsHeap :
    (st : Channels) (channel : Text) (key : Option Text) (list : ListId)
    → IsHeap st
    → IsHeap (channel_add st channel key list).1
unfolding channel_add
channel_add-IsHeap st channel key list h =
    elim (Option-cases (channel_find st channel list_active)) [
      | inr (c, e) ↦ rw (e, channel_add) h
      | inl e ↦ rw (e, channel_add) (add_new-IsHeap st channel key list h)
    ]
