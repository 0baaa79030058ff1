-- ===== src/Client/Drop.antt =====
-- src/client.c: the end of the connections of clients. A connection has the number `socket`; what the
-- rest of the program is told is the list `calls`.
use miau.Prelude.{
  ℕ, ◌-◌, Bool, true, false, Option, none, some, List, [], ◌∷◌, ◌++◌, Text, codes, ◌==◌,
  if◌then◌else◌, head0,
}

-- `clients_left` and `set_away` of src/miau.c with their message, a report, an error, and the last line
-- to a client.
pub data Call : Type 0 where
  clients_left set_away : Option Text → Call
  report error : Text → Call
  count : ℕ → Call
  farewell : ℕ → Text → Call

pub data MsgType : Type 0 where
  disconnect_error disconnect_dying disconnect_report other : MsgType

pub record DropCfg : Type 0 where
  pub maxclients : ℕ
  pub usequitmsg : ℕ
  pub autoaway : ℕ
  pub awaymsg : Option Text

pub record Clients : Type 0 where
  pub clients : List ℕ
  pub connected : ℕ
  pub calls : List Call

-- The list without the first node of a connection, which has to be on it.
unfoldable pub unlisted : ℕ → List ℕ → Option (List ℕ)
unlisted c [] = none
unlisted c (d ∷ ds) =
    if d == c then some ds else elim (unlisted c ds) [ none ↦ none | some rest ↦ some (d ∷ rest) ]

unfoldable pub last_line : Text → Bool → Text
last_line reason dying =
    if head0 reason == b':'
    then codes "ERROR " ++ reason
    else if dying
    then codes "ERROR: Killed by user:  " ++ reason
    else codes "ERROR: Closing link: " ++ reason

abbrev pub farewells : ℕ → Option Text → ℕ → Bool → List Call
farewells client none echo dying = []
farewells client (some reason) echo dying =
    if echo == 0 then [] else farewell client (last_line reason dying) ∷ []

-- `none` is a fault: a connection that is not on the list.
unfoldable pub client_drop_real : ℕ → Option Text → ℕ → Bool → Clients → Option Clients
unfolding unlisted last_line
client_drop_real client reason echo dying st = elim (unlisted client st.clients) [
  | none ↦ none
  | some rest ↦ some (record {
    clients = rest;
    connected = st.connected - 1;
    calls = st.calls ++ farewells client reason echo dying;
  })
]

abbrev pub is_dying : MsgType → Bool
is_dying disconnect_dying = true
is_dying disconnect_error = false
is_dying disconnect_report = false
is_dying other = false

-- The loop that drops the first client until there is none, over the clients there are.
unfoldable pub drop_each : List ℕ → Option Text → ℕ → Bool → Clients → Option Clients
unfolding client_drop_real
drop_each [] reason echo dying st = some st
drop_each (c ∷ cs) reason echo dying st = elim (client_drop_real c reason echo dying st) [
  | none ↦ none
  | some left ↦ drop_each cs reason echo dying left
]

abbrev pub null_text : Option Text → Text
null_text none = []
null_text (some t) = t

-- What is reported, and what becomes of being away.
abbrev pub reported : MsgType → Option Text → List Call
reported disconnect_error reason = error (null_text reason) ∷ []
reported disconnect_dying reason = report (codes "Killed by user: " ++ null_text reason) ∷ []
reported disconnect_report reason = report (null_text reason) ∷ []
reported other reason = []

abbrev pub or_default : Option Text → Option Text → Option Text
or_default none d = d
or_default (some m) d = some m

unfoldable pub aways : DropCfg → ℕ → Option Text → List Call
aways cfg connected awaymsg =
    if connected == 0
    then clients_left (if cfg.usequitmsg == 0 then none else awaymsg) ∷ []
    else if cfg.autoaway == 1
    then set_away (if cfg.usequitmsg == 1 then or_default awaymsg cfg.awaymsg else cfg.awaymsg) ∷ []
    else []

unfoldable pub after_drop : DropCfg → MsgType → Option Text → Option Text → Clients → Clients
unfolding aways
after_drop cfg msgtype reason awaymsg st =
    let counted = if cfg.maxclients == 1 then [] else count st.connected ∷ [] in
    record st {
      calls = st.calls ++ (reported msgtype reason ++ (counted ++ aways cfg st.connected awaymsg));
    }

unfoldable pub client_drop :
    DropCfg → Option ℕ → Option Text → MsgType → ℕ → Option Text → Clients → Option Clients
unfolding client_drop_real drop_each after_drop
client_drop cfg none reason msgtype echo awaymsg st =
    elim (drop_each st.clients reason echo (is_dying msgtype) st) [
      | none ↦ none
      | some left ↦ some (after_drop cfg msgtype reason awaymsg left)
    ]
client_drop cfg (some client) reason msgtype echo awaymsg st =
    elim (client_drop_real client reason echo (is_dying msgtype) st) [
      | none ↦ none
      | some left ↦ some (after_drop cfg msgtype reason awaymsg left)
    ]
