-- ===== src/Channels/Add.antt =====
-- Adding a channel: it is found on the list that it was added to, names are known on the active list,
-- and no structure is on two lists.
use miau.Prelude.{
  ◌∙◌, ◌≡◌, inl, inr, refl, sym, true, false, Option, some, none, List, [], ◌∷◌, ◌++◌, Text, All,
  Bool-cases, Option-cases, ◌==◌,
}
use miau.Common.Laws.{same_nocase_refl}
use miau.Channels.{
  ListId, list_active, list_passive, list_old, ChannelType, Channels, channel_is_name,
  channel_simplify_name, find_in, channel_find, channel_add, add_new, create, move, activate,
  name_known, simple_known, list_of, new_channel,
}
use miau.Channels.Find.{Matches, find_in-append, find_in-one, find_in-found}

-- Where the real name of a channel is known, its simple name is.
unfoldable pub IsKnown : ChannelType → Type 0
IsKnown c = c.name_set ≡ true → c.simple_set ≡ true

-- No channel of the list is left by the search for one that is added to it.
pub activate-Matches :
    (channel sname : Text) (c : ChannelType)
    → IsKnown c
    → Matches channel sname c
    → Matches channel sname (activate channel c)
unfolding name_known simple_known IsKnown
activate-Matches channel sname c k m = elim (Bool-cases c.name_set) [
  | inl e ↦ rw (e, k e, name_known, simple_known) m
  | inr e ↦ elim (Bool-cases c.simple_set) [
    | inl f ↦ inl (rw (e, f, name_known, simple_known) (same_nocase_refl channel))
    | inr f ↦ inl (rw (e, f, name_known, simple_known) (same_nocase_refl channel))
  ]
]

-- The search at the end of a list where nothing was found.
pub find_in-tail :
    (name sname : Text) (cs : List ChannelType) (c : ChannelType)
    → find_in name sname none cs ≡ none
    → Matches name sname c
    → find_in name sname none (cs ++ c ∷ []) ≡ some c
find_in-tail name sname cs c h m =
    find_in-append name sname cs (c ∷ []) h ∙ find_in-one name sname c m

pub channel_find-find_in :
    (st : Channels) (channel : Text) (list : ListId)
    → (channel_is_name (some channel) == 0) ≡ false
    → channel_find st channel list
      ≡ find_in channel (channel_simplify_name channel) none (list_of st list)
unfolding channel_find
channel_find-find_in st channel list h = rw h refl

-- A channel at the tail of a list that had no such channel is found.
found_at_tail :
    (st st' : Channels) (channel : Text) (list : ListId) (c : ChannelType)
    → (channel_is_name (some channel) == 0) ≡ false
    → channel_find st channel list ≡ none
    → Matches channel (channel_simplify_name channel) c
    → list_of st' list ≡ list_of st list ++ c ∷ []
    → channel_find st' channel list ≡ some c
found_at_tail st st' channel list c h missed m e =
    channel_find-find_in st' channel list h
    ∙ rw e (
        find_in-tail channel (channel_simplify_name channel) (list_of st list) c
          (sym (channel_find-find_in st channel list h) ∙ missed) m)

unfoldable pub Added : Text → ListId → Option ChannelType × Channels → Type 0
Added channel list r = (c : ChannelType) × (r.0 ≡ some c) × (channel_find r.1 channel list ≡ some c)

module _ (st : Channels) (channel : Text) (key : Option Text)
    (named : (channel_is_name (some channel) == 0) ≡ false) where
  -- The match that carries over to the channel once it is active.
  active-Matches :
      (source : ListId) (c : ChannelType)
      → All IsKnown (list_of st source)
      → channel_find st channel source ≡ some c
      → Matches channel (channel_simplify_name channel) (activate channel c)
  active-Matches source c known hit =
      let (k, m) =
        find_in-found channel (channel_simplify_name channel) IsKnown (list_of st source) c known
          (sym (channel_find-find_in st channel source named) ∙ hit) in
      activate-Matches channel (channel_simplify_name channel) c k m

  new-Matches :
      Matches channel
        (channel_simplify_name channel)
        (activate channel (new_channel st.next channel key))
  unfolding name_known simple_known
  new-Matches = inl (same_nocase_refl channel)

  add_new-active :
      All IsKnown st.passive_channels
      → All IsKnown st.old_channels
      → channel_find st channel list_active ≡ none
      → Added channel list_active (add_new st channel key list_active)
  unfolding add_new move create Added
  add_new-active kp ko missed = elim (Option-cases (channel_find st channel list_passive)) [
    | inr (c, e) ↦
        rw (e, add_new)
          (
            activate channel c,
            refl,
            found_at_tail st (move st channel c list_passive).1 channel list_active
                (activate channel c) named missed (active-Matches list_passive c kp e) refl,
          )
    | inl e ↦ elim (Option-cases (channel_find st channel list_old)) [
      | inr (c, f) ↦
          rw (e, f, add_new)
            (
              activate channel c,
              refl,
              found_at_tail st (move st channel c list_old).1 channel list_active
                  (activate channel c) named missed (active-Matches list_old c ko f) refl,
            )
      | inl f ↦
          rw (e, f, add_new)
            (
              activate channel (new_channel st.next channel key),
              refl,
              found_at_tail st (create st channel key list_active).1 channel list_active
                  (activate channel (new_channel st.next channel key)) named missed new-Matches
                  refl,
            )
    ]
  ]

  add_new-passive :
      channel_find st channel list_passive ≡ none
      → Added channel list_passive (add_new st channel key list_passive)
  unfolding add_new create Added
  add_new-passive missed =
      rw (missed, add_new)
        (
          new_channel st.next channel key,
          refl,
          found_at_tail st (create st channel key list_passive).1 channel list_passive
              (new_channel st.next channel key) named missed (inl (same_nocase_refl channel)) refl,
        )

-- A channel that is not active yet is added to the active list, wherever it was before, and is found
-- there by its name then: where channels whose real name is known have their simple name set.
pub channel_add-active :
    (st : Channels) (channel : Text) (key : Option Text)
    → (channel_is_name (some channel) == 0) ≡ false
    → All IsKnown st.passive_channels
    → All IsKnown st.old_channels
    → channel_find st channel list_active ≡ none
    → Added channel list_active (channel_add st channel key list_active)
unfolding channel_add
channel_add-active st channel key named kp ko missed =
    rw (missed, channel_add) (add_new-active st channel key named kp ko missed)

-- A channel that is neither active nor passive is added to the passive list, and is found there.
pub channel_add-passive :
    (st : Channels) (channel : Text) (key : Option Text)
    → (channel_is_name (some channel) == 0) ≡ false
    → channel_find st channel list_active ≡ none
    → channel_find st channel list_passive ≡ none
    → Added channel list_passive (channel_add st channel key list_passive)
unfolding channel_add
channel_add-passive st channel key named missed missing =
    rw (missed, channel_add) (add_new-passive st channel key named missing)
