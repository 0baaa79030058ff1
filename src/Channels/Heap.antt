-- ===== src/Channels/Heap.antt =====
-- Structures on the lists, and in how many places each is.
use miau.Prelude.{
  ℕ, suc, ◌+◌, ◌≤◌, ◌≡◌, ◌∙◌, ◌≢◌, inl, inr, refl, sym, true, some, List, [], ◌∷◌, ◌++◌, Text, All,
  arith, Bool-cases, ◌==◌, if◌then◌else◌, ==_refl, ==_ne, ℕ_discrete,
}
use miau.Channels.{
  ListId, ChannelType, Channels, channel_is_name, channel_simplify_name, channel_find, is_on,
  list_of, delete,
}
use miau.Channels.Find.{find_in-found, none-some}
use miau.Channels.Add.{channel_find-find_in}

-- How often a structure is on a list.
unfoldable pub times : ℕ → List ChannelType → ℕ
times a [] = 0
times a (c ∷ cs) = let rest = times a cs in if c.address == a then suc rest else rest

unfoldable pub places : ℕ → Channels → ℕ
places a st = times a st.active_channels + times a st.passive_channels + times a st.old_channels

-- No structure is in two places, and the next one that is allocated is nowhere.
unfoldable pub IsHeap : Channels → Type 0
IsHeap st = (a : ℕ) → (places a st ≤ 1) × (st.next ≤ a → places a st ≡ 0)

pub times-append : (a : ℕ) (cs ds : List ChannelType) → times a (cs ++ ds) ≡ times a cs + times a ds
unfolding times
times-append a [] ds = omega arith
times-append a (c ∷ cs) ds = ground (arith, times-append a cs ds)

pub times-delete_other :
    (a b : ℕ) (cs : List ChannelType) → a ≢ b → times a (delete b cs) ≡ times a cs
unfolding times delete
times-delete_other a b [] ne = refl
times-delete_other a b (c ∷ cs) ne = ground (arith, times-delete_other a b cs ne)

pub times-delete_same :
    (a : ℕ) (cs : List ChannelType) → 1 ≤ times a cs → suc (times a (delete a cs)) ≡ times a cs
unfolding times delete
times-delete_same a [] h = omega arith
times-delete_same a (c ∷ cs) h = ground (arith, times-delete_same a cs)

pub times-is_on : (a : ℕ) (cs : List ChannelType) → is_on a cs ≡ true → 1 ≤ times a cs
unfolding times is_on
times-is_on a [] h = ground arith
times-is_on a (c ∷ cs) h = ground (arith, times-is_on a cs)

All-map {ℓ κ} :
    {P : ChannelType → Type ℓ} {Q : ChannelType → Type κ} (cs : List ChannelType)
    → ((c : ChannelType) → P c → Q c)
    → All P cs
    → All Q cs
All-map [] f ps = tt
All-map (c ∷ cs) f (p, ps) = (f c p, All-map cs f ps)

pub times_grow :
    (a : ℕ) (c : ChannelType) (cs : List ChannelType) → 1 ≤ times a cs → 1 ≤ times a (c ∷ cs)
unfolding times
times_grow a c cs h = ground arith

pub times_head : (c : ChannelType) (cs : List ChannelType) → 1 ≤ times c.address (c ∷ cs)
unfolding times
times_head c cs = ground arith

-- The structures of a list are on it.
pub self : (cs : List ChannelType) → All (λ c. 1 ≤ times c.address cs) cs
self [] = tt
self (c ∷ cs) = (times_head c cs, All-map cs (λ d. times_grow d.address c cs) (self cs))

pub times-found :
    (st : Channels) (channel : Text) (list : ListId) (c : ChannelType)
    → channel_find st channel list ≡ some c
    → 1 ≤ times c.address (list_of st list)
unfolding channel_find
times-found st channel list c h = elim (Bool-cases (channel_is_name (some channel) == 0)) [
  | inl e ↦ absurd (none-some c (rw (e, channel_find) at h))
  | inr e ↦
      (find_in-found channel (channel_simplify_name channel)
        (λ d. 1 ≤ times d.address (list_of st list)) (list_of st list) c (self (list_of st list))
        (sym (channel_find-find_in st channel list e) ∙ h)).0
]

times_last :
    (a : ℕ) (m : ChannelType) (cs : List ChannelType)
    → times a (cs ++ m ∷ []) ≡ times a cs + (if m.address == a then 1 else 0)
unfolding times
times_last a m cs = ground (arith, times-append a cs (m ∷ []))

pub times_last_same :
    (a : ℕ) (m : ChannelType) (cs : List ChannelType)
    → m.address ≡ a
    → times a (cs ++ m ∷ []) ≡ suc (times a cs)
times_last_same a m cs e = omega (arith, rw (==_refl m.address a e) at (times_last a m cs))

pub times_last_other :
    (a : ℕ) (m : ChannelType) (cs : List ChannelType)
    → m.address ≢ a
    → times a (cs ++ m ∷ []) ≡ times a cs
times_last_other a m cs ne = omega (arith, rw (==_ne m.address a ne) at (times_last a m cs))

-- A structure that is moved from a list to the end of another.
pub moved_times :
    (a : ℕ) (c m : ChannelType) (from to : List ChannelType)
    → m.address ≡ c.address
    → 1 ≤ times c.address from
    → times a (to ++ m ∷ []) + times a (delete c.address from) ≡ times a to + times a from
unfolding times
moved_times a c m from to e h = elim (ℕ_discrete m.address a) [
  | yes p ↦ rw (sym e) (
      rw (sym p) (
        omega (
          arith,
          times_last_same m.address m to refl,
          rw (sym e) at (times-delete_same c.address from h),
        )))
  | no ne ↦
      omega (
        arith,
        times_last_other a m to ne,
        times-delete_other a c.address from (λ q. ne (e ∙ sym q)),
      )
]
