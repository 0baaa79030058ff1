-- ===== src/Client/Queued.antt =====
-- What JOIN and PART of a client do to the passive channels while there is no server.
use miau.Prelude.{
  ◌≡◌, inl, inr, refl, Bool, true, false, take, drop, Option, none, some, List, [], ◌∷◌, Text,
  codes, Option-cases, ◌==◌, if◌then◌else◌, length, text_eq,
}
use miau.Prelude.Strings.{tokens_by, token_end, fields_by}
use miau.Channels.{ChannelType, list_passive, channel_find}
use miau.Channels.Heap.{IsHeap}
use miau.Channels.Places.{channel_add-IsHeap}
use miau.Channels.Remove.{channel_rem-IsHeap}
use miau.Client.{
  ClientCfg, Session, cmd_part_action, part_names, cmd_part, part_all, next_key, join_one,
  join_names, cmd_join,
}

part_action-IsHeap :
    (cfg : ClientCfg) (chan : ChannelType) (reason : Text) (st : Session)
    → IsHeap st.channels
    → IsHeap (cmd_part_action cfg chan reason st).channels
unfolding cmd_part_action
part_action-IsHeap cfg chan reason st h = channel_rem-IsHeap st.channels (some chan) list_passive h

join_one-IsHeap :
    (cfg : ClientCfg) (chan : Text) (key : Option Text) (st : Session)
    → IsHeap st.channels
    → IsHeap (join_one cfg chan key st).channels
unfolding join_one
join_one-IsHeap cfg chan key st h = channel_add-IsHeap st.channels chan key list_passive h

if_IsHeap :
    (b : Bool) (x y : Session)
    → IsHeap x.channels
    → IsHeap y.channels
    → IsHeap (if b then x else y).channels
if_IsHeap true x y hx hy = hx
if_IsHeap false x y hx hy = hy

join_names-IsHeap :
    (cfg : ClientCfg) (chans : List Text) (key keyseek : Option Text) (st : Session)
    → IsHeap st.channels
    → IsHeap (join_names cfg chans key keyseek st).channels
unfolding join_names
join_names-IsHeap cfg [] key keyseek st h = h
join_names-IsHeap cfg (chan ∷ []) key keyseek st h =
    if_IsHeap (length chan == 0) st _ h (join_one-IsHeap cfg chan (next_key key keyseek).0 st h)
join_names-IsHeap cfg (chan ∷ c ∷ cs) key keyseek st h =
    join_names-IsHeap cfg (c ∷ cs) (next_key key keyseek).1 (next_key key keyseek).1 _
      (join_one-IsHeap cfg chan (next_key key keyseek).0 st h)

part_all-IsHeap :
    (cfg : ClientCfg) (chans : List ChannelType) (st : Session)
    → IsHeap st.channels
    → IsHeap (part_all cfg chans st).channels
unfolding part_all
part_all-IsHeap cfg [] st h = h
part_all-IsHeap cfg (c ∷ cs) st h = part_all-IsHeap cfg cs _ (part_action-IsHeap cfg c [] st h)

-- Whatever a client wants to join, or to leave with JOIN 0: no structure is on two lists or twice on one
-- afterwards, if none was before.
pub cmd_join-IsHeap :
    (cfg : ClientCfg) (par0 par1 : Option Text) (st : Session)
    → IsHeap st.channels
    → IsHeap (cmd_join cfg par0 par1 st).channels
unfolding cmd_join
cmd_join-IsHeap cfg none par1 st h = h
cmd_join-IsHeap cfg (some par0) par1 st h =
    if_IsHeap (text_eq par0 (codes "0")) _ _ (part_all-IsHeap cfg st.channels.passive_channels st h)
      (join_names-IsHeap cfg (fields_by b',' [] par0) par1 none st h)

part_names-IsHeap :
    (cfg : ClientCfg) (reason : Text) (names : List Text) (st : Session)
    → IsHeap st.channels
    → (after : Session) × (part_names cfg (some reason) names st ≡ some after)
      × IsHeap after.channels
unfolding part_names
part_names-IsHeap cfg reason [] st h = (st, refl, h)
part_names-IsHeap cfg reason (name ∷ names) st h =
    elim (Option-cases (channel_find st.channels name list_passive)) [
      | inl e ↦ rw (e, part_names) (part_names-IsHeap cfg reason names _ h)
      | inr (chan, e) ↦
          rw (e, part_names)
            (part_names-IsHeap cfg reason names _
              (part_action-IsHeap cfg chan (drop 1 reason) st h))
    ]

-- Leaving passive channels with a reason is no fault, and no structure is on two lists or twice on one
-- afterwards, if none was before.
pub cmd_part-IsHeap :
    (cfg : ClientCfg) (par0 : Option Text) (reason : Text) (st : Session)
    → IsHeap st.channels
    → (after : Session) × (cmd_part cfg par0 (some reason) st ≡ some after) × IsHeap after.channels
unfolding cmd_part
cmd_part-IsHeap cfg none reason st h = (st, refl, h)
cmd_part-IsHeap cfg (some par0) reason st h =
    part_names-IsHeap cfg reason (tokens_by b',' [] (take (token_end b':' par0) par0)) st h
