-- ===== src/Miau/Login.antt =====
-- src/miau.c: a client that wants in. One connection at a time can be on its way in, `c_newclient`; the
-- bits 1, 2 and 4 of `status.init` are `pass_seen`, `nick_seen` and `user_seen`.
use miau.Prelude.{
  ℕ, suc, Bool, true, false, not, ◌&&◌, ◌||◌, Option, none, some, List, [], ◌∷◌, Text, codes,
  text_eq, ◌==◌, if◌then◌else◌, length, take, drop, head0,
}
use miau.Prelude.Strings.{token_end, tokens_by}
use miau.Tools.{upcase}

-- `crypt` is of the C library's.
pub record LoginCfg : Type 0 where
  pub password : Text
  pub crypt : Text → Text → Text

-- `clients` are the sockets of the clients that are in, the last one first, and `names` the nick, user
-- name and host of the last one.
pub record Login : Type 0 where
  pub nickname : Option Text
  pub username : Option Text
  pub hostname : Option Text
  pub connected : Bool
  pub socket : ℕ
  pub pass_seen : Bool
  pub nick_seen : Bool
  pub user_seen : Bool
  pub passok : Bool
  pub clients : List ℕ
  pub names : Option Text × Option Text × Option Text

-- A password of 13 characters is taken for one that is encrypted.
unfoldable pub is_password : LoginCfg → Text → Bool
is_password cfg word =
    if length cfg.password == 13
    then text_eq (cfg.crypt word cfg.password) cfg.password
    else text_eq word cfg.password

abbrev pub unprefixed : Text → Text
unprefixed s = if head0 s == b':' then drop 1 s else s

abbrev pub first_word : List Text → Option Text
first_word [] = none
first_word (w ∷ ws) = some w

abbrev pub word_of : Text → Option Text
word_of s = first_word (tokens_by b' ' [] s)

unfoldable pub pass_line : LoginCfg → Text → Text → Login → Login
unfolding is_password
pass_line cfg command param st =
    if text_eq command (codes "PASS") && not st.pass_seen
    then record st { passok = is_password cfg (unprefixed param) || st.passok; pass_seen = true }
    else st

unfoldable pub nick_line : Text → Text → Login → Login
nick_line command param st =
    if text_eq command (codes "NICK")
    then record st { nick_seen = true; nickname = word_of param }
    else st

unfoldable pub user_line : Text → Text → Login → Login
user_line command param st =
    if text_eq command (codes "USER")
    then record st { user_seen = true; username = word_of param }
    else st

-- The client is in once all three were seen and the password was right.
unfoldable pub let_in : Login → Login
let_in st =
    if st.pass_seen && st.nick_seen && st.user_seen && st.passok
    then record {
      nickname = none;
      username = none;
      hostname = none;
      connected = false;
      socket = 0;
      pass_seen = false;
      nick_seen = false;
      user_seen = false;
      passok = false;
      clients = st.socket ∷ st.clients;
      names = (st.nickname, st.username, st.hostname);
    }
    else st

-- A line in two parts.
unfoldable pub newclient_line : LoginCfg → Text → Text → Login → Login
unfolding upcase pass_line nick_line user_line let_in
newclient_line cfg command param st =
    let upper = upcase command in
    let_in (user_line upper param (nick_line upper param (pass_line cfg upper param st)))

-- The first 30 characters of a line: a command, and the rest behind the space that ends it, if there is
-- any.
unfoldable pub read_newclient : LoginCfg → Text → Login → Login
unfolding newclient_line
read_newclient cfg buffer st =
    let line = take 30 buffer in
    let param = drop (suc (token_end b' ' line)) line in
    elim (word_of line) [
      | none ↦ st
      | some command ↦ if length param == 0 then st else newclient_line cfg command param st
    ]

unfoldable pub drop_newclient : Login → Login
drop_newclient st =
    if st.connected
    then record st { connected = false; pass_seen = false; nick_seen = false; user_seen = false }
    else st

-- A connection that is accepted, in `run`: only where none is on its way in.
unfoldable pub accept : Text → ℕ → Login → Login
accept host socket st =
    if st.connected
    then st
    else record st { hostname = some host; connected = true; socket = socket }

pub data Event : Type 0 where
  line : Text → Event
  accepted : Text → ℕ → Event
  closed : Event

unfoldable pub step : LoginCfg → Event → Login → Login
unfolding read_newclient accept drop_newclient
step cfg (line buffer) st = if st.connected then read_newclient cfg buffer st else st
step cfg (accepted host socket) st = accept host socket st
step cfg closed st = drop_newclient st

unfoldable pub run : LoginCfg → List Event → Login → Login
unfolding step
run cfg [] st = st
run cfg (e ∷ es) st = run cfg es (step cfg e st)
