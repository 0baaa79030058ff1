-- ===== src/Miau/Nick.antt =====
-- src/miau.c: the nick that is tried next while miau signs in to a server. `current` is an index into
-- the list of nicks, NULL is `none`; a result of `none` is a fault.
use miau.Prelude.{
  ℕ, suc, ◌*◌, Bool, true, false, Option, none, some, List, [], ◌∷◌, ◌++◌, Text, ltb, ◌==◌,
  if◌then◌else◌, length, take, get_elem?, codes,
}
use miau.Prelude.Strings.{◌>>=◌}
use miau.Irc.{cut}
use miau.Tools.{randname}

pub data NickNext : Type 0 where
  nick_first nick_next nick_gen : NickNext

pub record NickCfg : Type 0 where
  pub nickfillchar : ℕ
  pub maxnicklen : ℕ
  pub rand : ℕ → ℕ

pub record Nicks : Type 0 where
  pub nicks : List Text
  pub current : Option ℕ
  pub next : NickNext
  pub gen_tries : ℕ
  pub nickname : Text
  pub got_nick : ℕ
  pub getting_nick : ℕ
  pub sent : List Text

abbrev pub node_at : List Text → ℕ → Option ℕ
node_at nicks i = if ltb i (length nicks) then some i else none

-- Which nick of the list is next, if there is one.
unfoldable pub advance : NickNext → Nicks → Option Nicks
advance nick_first st =
    some (record st { current = node_at st.nicks 0; next = nick_next; gen_tries = 0 })
advance nick_next st = elim st.current as (λ _. Option Nicks) [
  | none ↦ none
  | some i ↦ some (record st { current = node_at st.nicks (suc i) })
]
advance nick_gen st = some st

abbrev pub with_nick : Nicks → Text → Nicks
with_nick st nick = record st { nickname = nick }

-- The memory has room for `maxnicklen` characters: a longer nick loses its terminator in it.
unfoldable pub named : NickCfg → Text → Option Text
unfolding randname
named cfg base =
    if ltb cfg.maxnicklen (length base)
    then none
    else randname cfg.rand base cfg.maxnicklen cfg.nickfillchar

-- A nick that is made from the first one of the list; once all turns of it were tried, one by chance.
unfoldable pub generate : NickCfg → Nicks → Option Nicks
unfolding named
generate cfg st =
    let first = elim st.nicks as (λ _. Option Text) [
      | [] ↦ none
      | nick ∷ nicks ↦ some (take cfg.maxnicklen nick)
    ] in
    (if st.gen_tries == 0 then first else some st.nickname) >>= (λ base.
      let all_tried = st.gen_tries == cfg.maxnicklen * 2 in
      named cfg (if all_tried then [] else base) >>= (λ nick. some (record st {
        next = nick_gen;
        gen_tries = if all_tried then st.gen_tries else suc st.gen_tries;
        nickname = nick;
      })))

unfoldable pub pick : NickCfg → Option ℕ → Nicks → Option Nicks
unfolding generate
pick cfg none st =
    if cfg.nickfillchar == 0
    then get_elem? st.nicks 0 >>= (λ nick. some (record st { current = some 0; nickname = nick }))
    else generate cfg st
pick cfg (some i) st = get_elem? st.nicks i >>= (λ nick. some (with_nick st nick))

-- The nick is sent to the server.
abbrev pub tried : Nicks → Nicks
tried st = record st {
  getting_nick = suc st.getting_nick;
  sent = st.sent ++ cut (codes "NICK " ++ st.nickname) ∷ [];
  got_nick = 0;
}

-- `registered` is whether miau has signed in already.
unfoldable pub get_nick : NickCfg → Bool → Nicks → Option Nicks
unfolding advance pick
get_nick cfg true st = some (record st { got_nick = 0 })
get_nick cfg false st =
    advance st.next st >>= (λ at. pick cfg at.current at) >>= (λ picked. some (tried picked))
