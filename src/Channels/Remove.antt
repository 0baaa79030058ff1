-- ===== src/Channels/Remove.antt =====
-- Removing a channel: it leaves its list, or moves to the old channels, and the others stay.
use miau.Prelude.{
  ℕ, ◌≤◌, ◌≡◌, ◌≢◌, inl, inr, refl, sym, false, Option, some, none, List, [], ◌∷◌, ◌++◌, arith,
  Bool-cases,
}
use miau.Channels.{
  ListId, list_active, list_passive, list_old, ChannelType, Channels, channel_rem, is_on, list_of,
  delete,
}
use miau.Channels.Heap.{
  times, places, IsHeap, times-is_on, times-delete_other, times_last_other, moved_times,
}

times-delete_le : (a b : ℕ) (cs : List ChannelType) → times a (delete b cs) ≤ times a cs
unfolding times delete
times-delete_le a b [] = omega arith
times-delete_le a b (c ∷ cs) = ground (arith, times-delete_le a b cs)

places-channel_rem :
    (a : ℕ) (st : Channels) (c : ChannelType) (list : ListId)
    → (places a (channel_rem st (some c) list) ≤ places a st)
      × ((channel_rem st (some c) list).next ≡ st.next)
unfolding places channel_rem
places-channel_rem a st c list_active = elim (Bool-cases (is_on c.address st.active_channels)) [
  | inr e ↦ rw (e, channel_rem) (omega arith, refl)
  | inl e ↦ elim (Bool-cases c.hasqlog) [
    | inr f ↦
        rw (e, f, channel_rem) (omega (arith, times-delete_le a c.address st.active_channels), refl)
    | inl f ↦
        simp (e, f, channel_rem)
          (
            omega (
              arith,
              moved_times a c c st.active_channels st.old_channels refl
                  (times-is_on c.address st.active_channels e),
            ),
            refl,
          )
  ]
]
places-channel_rem a st c list_passive =
    (omega (arith, times-delete_le a c.address st.passive_channels), refl)
places-channel_rem a st c list_old =
    (omega (arith, times-delete_le a c.address st.old_channels), refl)

-- Whatever channel is removed from whatever list, no structure is on two lists or twice on one
-- afterwards, if none was before: also where the channel moves to the old ones.
pub channel_rem-IsHeap :
    (st : Channels) (chptr : Option ChannelType) (list : ListId)
    → IsHeap st
    → IsHeap (channel_rem st chptr list)
unfolding IsHeap channel_rem
channel_rem-IsHeap st none list h a = h a
channel_rem-IsHeap st (some c) list h a =
    let (le, same) = places-channel_rem a st c list in
    let (one, fresh) = h a in (omega (arith, le, one), λ n. omega (arith, le, fresh, same, n))

is_on-times : (a : ℕ) (cs : List ChannelType) → is_on a cs ≡ false → times a cs ≡ 0
unfolding times is_on
is_on-times a [] h = refl
is_on-times a (c ∷ cs) h = ground (arith, is_on-times a cs)

times-delete_once : (a : ℕ) (cs : List ChannelType) → times a cs ≤ 1 → times a (delete a cs) ≡ 0
unfolding times delete
times-delete_once a [] h = refl
times-delete_once a (c ∷ cs) h = ground (arith, times-delete_once a cs)

list-channel_rem :
    (st : Channels) (c : ChannelType) (list : ListId)
    → times c.address (list_of st list) ≤ 1
    → times c.address (list_of (channel_rem st (some c) list) list) ≡ 0
unfolding channel_rem
list-channel_rem st c list_active h = elim (Bool-cases (is_on c.address st.active_channels)) [
  | inr e ↦ rw (e, channel_rem) (is_on-times c.address st.active_channels e)
  | inl e ↦ elim (Bool-cases c.hasqlog) [
    | inr f ↦ rw (e, f, channel_rem) (times-delete_once c.address st.active_channels h)
    | inl f ↦ rw (e, f, channel_rem) (times-delete_once c.address st.active_channels h)
  ]
]
list-channel_rem st c list_passive h = times-delete_once c.address st.passive_channels h
list-channel_rem st c list_old h = times-delete_once c.address st.old_channels h

times_le-places : (a : ℕ) (st : Channels) (list : ListId) → times a (list_of st list) ≤ places a st
unfolding places
times_le-places a st list_active = omega arith
times_le-places a st list_passive = omega arith
times_le-places a st list_old = omega arith

times-taken :
    (st : Channels) (c : ChannelType) (a : ℕ) (other : ListId)
    → a ≢ c.address
    → times a (list_of (record st { active_channels = delete c.address st.active_channels }) other)
      ≡ times a (list_of st other)
times-taken st c a list_active ne = times-delete_other a c.address st.active_channels ne
times-taken st c a list_passive ne = refl
times-taken st c a list_old ne = refl

times-shelved :
    (st : Channels) (c : ChannelType) (a : ℕ) (other : ListId)
    → a ≢ c.address
    → times a (
        list_of
          (record st {
            active_channels = delete c.address st.active_channels;
            old_channels = st.old_channels ++ c ∷ [];
          })
          other)
      ≡ times a (list_of st other)
times-shelved st c a list_active ne = times-delete_other a c.address st.active_channels ne
times-shelved st c a list_passive ne = refl
times-shelved st c a list_old ne = times_last_other a c st.old_channels (λ e. ne (sym e))

times-channel_rem :
    (st : Channels) (c : ChannelType) (a : ℕ) (list other : ListId)
    → a ≢ c.address
    → times a (list_of (channel_rem st (some c) list) other) ≡ times a (list_of st other)
unfolding channel_rem
times-channel_rem st c a list_active other ne =
    elim (Bool-cases (is_on c.address st.active_channels)) [
      | inr e ↦ rw (e, channel_rem) refl
      | inl e ↦ elim (Bool-cases c.hasqlog) [
        | inr f ↦ rw (e, f, channel_rem) (times-taken st c a other ne)
        | inl f ↦ simp (e, f, channel_rem) (times-shelved st c a other ne)
      ]
    ]
times-channel_rem st c a list_passive list_active ne = refl
times-channel_rem st c a list_passive list_passive ne =
    times-delete_other a c.address st.passive_channels ne
times-channel_rem st c a list_passive list_old ne = refl
times-channel_rem st c a list_old list_active ne = refl
times-channel_rem st c a list_old list_passive ne = refl
times-channel_rem st c a list_old list_old ne = times-delete_other a c.address st.old_channels ne

-- A channel that was removed from a list is no longer on it, and every other channel is on each list
-- as before: where no structure was in two places.
pub channel_rem-times :
    (st : Channels) (c : ChannelType) (list : ListId)
    → IsHeap st
    → (times c.address (list_of (channel_rem st (some c) list) list) ≡ 0)
      × ((a : ℕ) (other : ListId)
          → a ≢ c.address
          → times a (list_of (channel_rem st (some c) list) other) ≡ times a (list_of st other))
unfolding IsHeap channel_rem
channel_rem-times st c list h = (
  list-channel_rem st c list (omega (arith, (h c.address).0, times_le-places c.address st list)),
  λ a other ne. times-channel_rem st c a list other ne,
)
