-- ===== src/Channels.antt =====
-- src/channels.c: the lists of active, passive and old channels. A channel has the address of its
-- structure, which pointers are compared by; `next` is the address that the next allocation gives.
-- Log files and the queue of modes of a channel are not part of it here.
pub mod Find
pub mod Add
pub mod Heap
pub mod Places
pub mod Remove
pub mod Join
mod Examples
use miau.Prelude.{
  ℕ, zero, suc, ◌-◌, Bool, true, false, not, ◌||◌, Option, some, none, List, [], ◌∷◌, ◌++◌, Text,
  ltb, ◌==◌, if◌then◌else◌, length, head0, take, drop, codes,
}
use miau.Prelude.Int.{ℤ, pos, negsuc, dec, above}
use miau.Common.{same_nocase}

pub data ListId : Type 0 where
  list_passive list_active list_old : ListId

pub record ChannelType : Type 0 where
  pub address : ℕ
  pub name : Text
  pub simple_name : Text
  pub name_set : Bool
  pub simple_set : Bool
  pub topic : Option Text
  pub topicwho : Option Text
  pub topicwhen : Option Text
  pub key : Text
  pub jointries : ℤ
  pub oper : ℤ
  pub hasqlog : Bool

pub record Channels : Type 0 where
  pub active_channels : List ChannelType
  pub passive_channels : List ChannelType
  pub old_channels : List ChannelType
  pub next : ℕ

unfoldable pub channel_simplify_name : Text → Text
channel_simplify_name chan =
    if not (head0 chan == b'!')
    then chan
    else if ltb (length chan) 6
    then chan
    else take (length chan - 5) (b'!' ∷ drop 6 chan)

unfoldable pub channel_is_name : Option Text → ℕ
channel_is_name none = 0
channel_is_name (some name) =
    let c = head0 name in
    if c == b'#' || c == b'&' || c == b'!' || c == b'+' || c == b'.' || c == b'~' then c else 0

abbrev pub list_of : Channels → ListId → List ChannelType
list_of st list_active = st.active_channels
list_of st list_passive = st.passive_channels
list_of st list_old = st.old_channels

abbrev pub with_list : Channels → ListId → List ChannelType → Channels
with_list st list_active cs = record st { active_channels = cs }
with_list st list_passive cs = record st { passive_channels = cs }
with_list st list_old cs = record st { old_channels = cs }

-- The loop of `channel_find`, with the match that was the best so far.
unfoldable pub find_in : Text → Text → Option ChannelType → List ChannelType → Option ChannelType
find_in name sname bmatch [] = bmatch
find_in name sname bmatch (chan ∷ rest) =
    let found = find_in name sname (some chan) rest in
    let not_found = find_in name sname bmatch rest in
    if same_nocase chan.name name
    then some chan
    else if same_nocase chan.simple_name sname
    then found
    else not_found

unfoldable pub channel_find : Channels → Text → ListId → Option ChannelType
unfolding channel_is_name find_in channel_simplify_name
channel_find st name list =
    if channel_is_name (some name) == 0
    then none
    else find_in name (channel_simplify_name name) none (list_of st list)

-- `llist_find` and `llist_delete`: the first node with the address.
unfoldable pub delete : ℕ → List ChannelType → List ChannelType
delete a [] = []
delete a (c ∷ cs) = let rest = delete a cs in if c.address == a then cs else c ∷ rest

unfoldable pub is_on : ℕ → List ChannelType → Bool
is_on a [] = false
is_on a (c ∷ cs) = let rest = is_on a cs in if c.address == a then true else rest

abbrev pub new_channel : ℕ → Text → Option Text → ChannelType
new_channel address channel key = record {
  address = address;
  name = channel;
  simple_name = channel;
  name_set = false;
  simple_set = false;
  topic = none;
  topicwho = none;
  topicwhen = none;
  key = elim key [ none ↦ codes "-" | some k ↦ k ];
  jointries = negsuc 0;
  oper = negsuc 0;
  hasqlog = false;
}

-- What `channel_add` does to a channel that goes to the active list, once it is there.
unfoldable pub name_known : Text → ChannelType → ChannelType
name_known channel c =
    if c.name_set
    then c
    else if c.simple_set
    then record c { name = channel; name_set = true }
    else record c { name = channel; name_set = true; simple_name = channel }

unfoldable pub simple_known : ChannelType → ChannelType
unfolding channel_simplify_name
simple_known c =
    if c.simple_set
    then c
    else record c { simple_name = channel_simplify_name c.name; simple_set = true }

abbrev pub activate : Text → ChannelType → ChannelType
activate channel c = simple_known (name_known channel c)

-- The channel where it is created, at the tail of the list.
unfoldable pub create : Channels → Text → Option Text → ListId → ChannelType × Channels
unfolding name_known simple_known
create st channel key list_active =
    let c = activate channel (new_channel st.next channel key) in
    (c, record st { active_channels = st.active_channels ++ c ∷ []; next = suc st.next })
create st channel key list_passive =
    let c = new_channel st.next channel key in
    (c, record st { passive_channels = st.passive_channels ++ c ∷ []; next = suc st.next })
create st channel key list_old =
    let c = new_channel st.next channel key in
    (c, record st { old_channels = st.old_channels ++ c ∷ []; next = suc st.next })

-- The channel where it is moved to the active list from another.
unfoldable pub move : Channels → Text → ChannelType → ListId → ChannelType × Channels
unfolding delete name_known simple_known
move st channel c source =
    let moved = activate channel c in
    let left = with_list st source (delete c.address (list_of st source)) in
    (moved, record left { active_channels = left.active_channels ++ moved ∷ [] })

abbrev pub found : ChannelType × Channels → Option ChannelType × Channels
found (c, st) = (some c, st)

-- `channel_add` where the channel is not active yet.
unfoldable pub add_new : Channels → Text → Option Text → ListId → Option ChannelType × Channels
unfolding channel_find create move
add_new st channel key list_active = elim (channel_find st channel list_passive) [
  | some c ↦ found (move st channel c list_passive)
  | none ↦ elim (channel_find st channel list_old) [
    | some c ↦ found (move st channel c list_old)
    | none ↦ found (create st channel key list_active)
  ]
]
add_new st channel key list_passive = elim (channel_find st channel list_passive) [
  | some c ↦ (none, st)
  | none ↦ found (create st channel key list_passive)
]
add_new st channel key list_old = found (create st channel key list_old)

unfoldable pub channel_add : Channels → Text → Option Text → ListId → Option ChannelType × Channels
unfolding channel_find add_new
channel_add st channel key list = elim (channel_find st channel list_active) [
  | some c ↦ (none, st)
  | none ↦ add_new st channel key list
]

-- `channel_rem` once the quick log was looked through, which keeps `hasqlog` up to date.
unfoldable pub channel_rem : Channels → Option ChannelType → ListId → Channels
unfolding delete is_on
channel_rem st none list = st
channel_rem st (some c) list_active =
    let left = record st { active_channels = delete c.address st.active_channels } in
    if not (is_on c.address st.active_channels)
    then st
    else if c.hasqlog
    then record left { old_channels = st.old_channels ++ c ∷ [] }
    else left
channel_rem st (some c) list_passive = record st {
  passive_channels = delete c.address st.passive_channels;
}
channel_rem st (some c) list_old = record st { old_channels = delete c.address st.old_channels }

unfoldable pub channel_topic : ChannelType → Option Text → ChannelType
channel_topic chan none = record chan { topic = none; topicwho = none; topicwhen = none }
channel_topic chan (some topic) =
    let cleared = record chan { topic = none; topicwho = none; topicwhen = none } in
    if head0 topic == 0 then cleared else record cleared { topic = some topic }

unfoldable pub channel_when : ChannelType → Text → Text → ChannelType
channel_when chan who when = elim chan.topic [
  | none ↦ chan
  | some topic ↦ record chan { topicwho = some who; topicwhen = some when }
]
