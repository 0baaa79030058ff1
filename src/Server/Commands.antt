-- ===== src/Server/Commands.antt =====
-- src/server.c: lines of the server that are not replies, server_commands. What is dropped and which server
-- comes next are in Server/Drop.antt and Server.antt.
use miau.Prelude.{
  ℕ, Option, none, some, [], ◌∷◌, ◌++◌, Text, codes, ◌==◌, if◌then◌else◌, head0, drop,
}
use miau.Prelude.Strings.{◌>>=◌}
use miau.Tools.{upcase}
use miau.Common.{xstrcmp}
use miau.Irc.{cut, irc_write_head}
use miau.Server.{Servers, ServerCfg, Change, going, server_change}
use miau.Server.Drop.{DropCfg, Link, server_drop}
use miau.Miau.Login.{Login, drop_newclient}

-- The connection, the servers, and the client that wants in. `i_server.connected` is in the first two.
pub record Serviced : Type 0 where
  pub link : Link
  pub servers : Servers
  pub newclient : Login

-- What is left, with what `server_change` comes to, and whether the line goes on to the clients.
pub record Commanded : Type 0 where
  pub link : Link
  pub change : Change
  pub newclient : Login
  pub pass : ℕ

abbrev pub behind_colon : Text → Text
behind_colon s = if head0 s == b':' then drop 1 s else s

unfoldable pub pong_server : Option Text → Link → Link
unfolding irc_write_head
pong_server none link = link
pong_server (some param) link = record link {
  flood = irc_write_head link.flood (codes "PONG :" ++ behind_colon param);
}

abbrev pub error_text : Option Text → Text
error_text none = codes "Closed connection after server reported error."
error_text (some param) = param

abbrev pub closing_link : Text → Link → Link
closing_link text link = record link {
  told = link.told ++ cut (codes "ERROR: Closing link: " ++ text) ∷ [];
}

-- ERROR. `disable` is whether the connection had not been made, as it is known behind `server_drop`.
unfoldable pub server_error : DropCfg → ServerCfg → Option Text → Serviced → Option Commanded
unfolding server_drop server_change drop_newclient
server_error cfg servers_cfg param st =
    server_drop cfg (some (error_text param)) st.link >>= (λ (link : Link).
      let disable = if link.connected == 0 then 1 else 0 in
      server_change servers_cfg 1 disable
        (record st.servers { connected = link.connected; connect_timer = link.connect_timer })
      >>= (λ (change : Change). some (record {
        link = closing_link (error_text param) link;
        change = change;
        newclient = drop_newclient st.newclient;
        pass = 0;
      })))

unfoldable pub server_commands :
    DropCfg → ServerCfg → Text → Option Text → Serviced → Option Commanded
unfolding upcase xstrcmp pong_server server_error
server_commands cfg servers_cfg command param st =
    let upper = upcase command in
    if xstrcmp (some upper) (some (codes "PING"))
    then some (record {
      link = pong_server param st.link;
      change = going st.servers;
      newclient = st.newclient;
      pass = 0;
    })
    else if xstrcmp (some upper) (some (codes "ERROR"))
    then server_error cfg servers_cfg param st
    else some
        (record { link = st.link; change = going st.servers; newclient = st.newclient; pass = 1 })
