-- ===== src/Server.antt =====
-- src/server.c: the list of servers and the choice of the next one. The list begins with the fallback
-- server, and a pointer to a node of it is an index. What is reported to the clients and the log is the
-- list `said`. The children model the other parts of the file.
pub mod Next
pub mod Choice
pub mod Modes
pub mod Moded
pub mod Drop
pub mod Commands
pub mod Disabled
pub mod Dropped
pub mod Reply
pub mod Heard
pub mod Tracked
pub mod Followed
pub mod Own
pub mod Talk
pub mod Privmsg
pub mod Talked
mod Examples
mod ReplyExamples
mod TalkExamples
use miau.Prelude.{
  ℕ, zero, suc, ◌-◌, Bool, true, false, not, ◌&&◌, ◌||◌, Option, none, some, List, [], ◌∷◌, ◌++◌,
  Text, ltb, leb, ◌==◌, if◌then◌else◌, length, get_elem?, set, drop, ◌+◌,
}
use miau.Prelude.Int.{ℤ, pos, negsuc}
use miau.Prelude.Strings.{◌>>=◌}
use miau.Common.{xstrcmp}
use miau.Parser.{ServerType}

-- The value of `reconnectdelay` that forbids to connect.
abbrev pub conn_disabled : ℕ
conn_disabled = 999

pub data Report : Type 0 where
  no_servers out_of_servers : Report
  reconnect_now reconnect : Text → Report

pub record Servers : Type 0 where
  pub servers : List ServerType
  pub amount : ℕ
  pub fresh : ℕ
  pub current : ℕ
  pub connected : ℕ
  pub good_server : ℕ
  pub reconnectdelay : ℕ
  pub connect_timer : ℕ
  pub said : List Report

-- The fields of `cfg` that are read.
pub record ServerCfg : Type 0 where
  pub delay : ℕ
  pub nevergiveup : ℕ

-- Whether the program goes on, or exits as it is out of servers.
pub data Change : Type 0 where
  going : Servers → Change
  gave_up : Servers → Change

abbrev pub going? : Option Servers → Option Change
going? none = none
going? (some st) = some (going st)

abbrev pub say : Report → Servers → Servers
say r st = record st { said = st.said ++ r ∷ [] }

abbrev pub with_working : ℕ → ServerType → ServerType
with_working w s = record s { working = w }

-- The copy of a server to the fallback one, which is the first of the list.
unfoldable pub server_set_fallback : ℕ → List ServerType → Option (List ServerType)
server_set_fallback safenode [] = none
server_set_fallback zero (fallback ∷ rest) = some (fallback ∷ rest)
server_set_fallback (suc i) (fallback ∷ rest) = do
  safe ← get_elem? rest i
  some (with_working 1 safe ∷ rest)

unfoldable pub all_working : List ServerType → List ServerType
all_working [] = []
all_working (s ∷ rest) = with_working 1 s ∷ all_working rest

-- All but the first server work again.
unfoldable pub server_reset : List ServerType → List ServerType
unfolding all_working
server_reset [] = []
server_reset (fallback ∷ rest) = fallback ∷ all_working rest

abbrev pub same_port : ℤ → ℤ → Bool
same_port (pos a) (pos b) = a == b
same_port (pos a) (negsuc b) = false
same_port (negsuc a) (pos b) = false
same_port (negsuc a) (negsuc b) = a == b

unfoldable pub same_server : ServerType → ServerType → Bool
unfolding xstrcmp
same_server a b = xstrcmp (some a.name) (some b.name) && same_port a.port b.port

-- The loop of `server_check_list` from index `i` on, with the server that `current` points to. It goes
-- on behind a match, from where `current` points to the match.
unfoldable pub find_same : ServerType → ℕ → List ServerType → Option ℕ → Option ℕ
unfolding same_server
find_same now i [] found = found
find_same now i (s ∷ rest) found =
    let same = same_server now s in
    find_same (if same then s else now) (suc i) rest (if same then some i else found)

-- `none` is a fault: `current` points to no server.
unfoldable pub server_check_list : ServerCfg → Servers → Option Servers
unfolding find_same
server_check_list cfg st =
    if leb st.amount 1
    then some (say no_servers (record st { reconnectdelay = conn_disabled }))
    else do
      now ← get_elem? st.servers st.current
      some (elim (find_same now 1 (drop 1 st.servers) none) as (λ _. Servers) [
        | none ↦ record st { reconnectdelay = cfg.delay }
        | some i ↦ record st { reconnectdelay = cfg.delay; current = i; fresh = 0 }
      ])

unfoldable pub works : List ServerType → ℕ → Bool
works servers i = elim (get_elem? servers i) [ none ↦ false | some s ↦ not (s.working == 0) ]

-- The node behind, or the first one behind the fallback server.
unfoldable pub next_of : List ServerType → ℕ → ℕ
next_of servers i = if ltb (suc i) (length servers) then suc i else 1

-- The loop of `server_change`, which ends at a server that works or where it began. `none` is a fault,
-- where there is no server, or the end of the fuel.
unfoldable pub next_server : ℕ → List ServerType → ℕ → ℕ → Option ℕ
unfolding works next_of
next_server zero servers start current = none
next_server (suc fuel) servers start current =
    let i = next_of servers current in
    let rest = next_server fuel servers start i in
    if ltb i (length servers)
    then (if works servers i || i == start then some i else rest)
    else none

-- The server that is left is marked, unless it is the fallback one.
unfoldable pub disabled : ℕ → List ServerType → ℕ → List ServerType
disabled disable servers zero = servers
disabled disable servers (suc i) =
    if disable == 1
    then elim (get_elem? servers (suc i)) [
      | none ↦ servers
      | some s ↦ set servers (suc i) (with_working 0 s)
    ]
    else servers

-- The end of `server_change`, with the server where it began.
unfoldable pub announce : ServerCfg → ℕ → ℕ → Servers → Option Servers
announce cfg next start st = do
  now ← get_elem? st.servers st.current
  some (
      if next == 0
      then say (reconnect_now now.name) (record st { connect_timer = cfg.delay - 1 })
      else if start == st.current
      then say (reconnect now.name) (record st { connect_timer = 0 })
      else st)

abbrev pub tried_again : Servers → Servers
tried_again st = say out_of_servers (record st { servers = server_reset st.servers; current = 1 })

-- Where no server works, they are all tried again, or the program ends.
unfoldable pub choose : ServerCfg → ℕ → ℕ → Servers → Option Change
unfolding server_reset announce
choose cfg next start st = elim (get_elem? st.servers st.current) [
  | none ↦ none
  | some now ↦
      if not (now.working == 0)
      then going? (announce cfg next start st)
      else if cfg.nevergiveup == 1
      then going? (announce cfg next start (tried_again st))
      else some (gave_up st)
]

-- The choice of a server from where it begins.
unfoldable pub change_from : ServerCfg → ℕ → ℕ → ℕ → Servers → Option Change
unfolding disabled next_server choose
change_from cfg next disable start st =
    let servers = disabled disable st.servers start in
    if next == 1
    then (next_server (length servers + length servers) servers start start >>= λ i.
        choose cfg next start (record st { servers = servers; current = i }))
    else choose cfg next start (record st { servers = servers; current = start })

unfoldable pub server_change : ServerCfg → ℕ → ℕ → Servers → Option Change
unfolding server_check_list change_from
server_change cfg next disable st =
    let left = record st { connected = 0 } in
    if st.good_server == 1
    then some (going (record st { good_server = 0 }))
    else if st.amount == 1
    then going? (server_check_list cfg left)
    else if st.reconnectdelay == conn_disabled
    then some (going left)
    else change_from cfg next disable (if st.fresh == 1 then 0 else st.current) left
