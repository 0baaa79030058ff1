-- ===== src/Server/Disabled.antt =====
-- src/server.c: what an ERROR of the server does to the server that it came from.
use miau.Prelude.{
  ◌≡◌, ◌∙◌, refl, sym, ap, Bool, true, false, Option, none, some, Text, codes, arith, ◌==◌,
  if◌then◌else◌,
}
use miau.Prelude.Strings.{◌>>=◌}
use miau.Tools.{upcase}
use miau.Irc.{irc_clear_queue}
use miau.Miau.Login.{drop_newclient}
use miau.Server.{ServerCfg, Change, server_change}
use miau.Server.Drop.{DropCfg, Link, server_drop, say_quit, forget}
use miau.Server.Commands.{
  Serviced, Commanded, error_text, closing_link, server_error, server_commands,
}

some_of_two : (b : Bool) (x y : Link) → (z : Link) × ((if b then some x else some y) ≡ some z)
some_of_two true x y = (x, refl)
some_of_two false x y = (y, refl)

said_quit :
    (reason : Text) (st : Link) → (closed : Link) × (say_quit (some reason) st ≡ some closed)
unfolding say_quit
said_quit reason st = some_of_two (st.socket == 0) st _

-- With a reason the end of a connection is no fault, and forgets it.
server_drop-forget :
    (cfg : DropCfg) (reason : Text) (st : Link)
    → (closed : Link) × (server_drop cfg (some reason) st ≡ some (forget cfg reason closed))
unfolding server_drop
server_drop-forget cfg reason st =
    let (closed, e) = said_quit reason (record st { flood = irc_clear_queue st.flood }) in
    (closed, rw (e, server_drop) refl)

abbrev change_of : Option Commanded → Option Change
change_of none = none
change_of (some r) = some r.change

-- What is made of a change that was found.
with_change :
    (o : Option Change) (f : Change → Commanded) (r : Commanded)
    → ((c : Change) → (f c).change ≡ c)
    → o >>= (λ c. some (f c)) ≡ some r
    → some r.change ≡ o
with_change none f r h e = absurd (ground arith)
with_change (some c) f r h e = sym (ap change_of e) ∙ ap some (h c)

error-disables :
    (cfg : DropCfg) (servers_cfg : ServerCfg) (param : Option Text) (st : Serviced) (r : Commanded)
    → server_error cfg servers_cfg param st ≡ some r
    → some r.change
      ≡ server_change servers_cfg 1 1 (record st.servers { connected = 0; connect_timer = 0 })
unfolding server_error forget
error-disables cfg servers_cfg param st r e =
    let (closed, dropped) = server_drop-forget cfg (error_text param) st.link in
    let link = forget cfg (error_text param) closed in
    with_change
      (server_change servers_cfg 1 1 (record st.servers { connected = 0; connect_timer = 0 }))
      (λ change. record {
        link = closing_link (error_text param) link;
        change = change;
        newclient = drop_newclient st.newclient;
        pass = 0;
      })
      r (λ c. refl) (rw (dropped, server_error) at e)

-- Whatever stage the connection to the server is at, where an ERROR of it is read without a fault: the next
-- server is chosen as after a connection that was never made, with `disable` set.
pub server_commands-disables :
    (cfg : DropCfg) (servers_cfg : ServerCfg) (command : Text) (param : Option Text) (st : Serviced)
    (r : Commanded)
    → upcase command ≡ codes "ERROR"
    → server_commands cfg servers_cfg command param st ≡ some r
    → some r.change
      ≡ server_change servers_cfg 1 1 (record st.servers { connected = 0; connect_timer = 0 })
unfolding server_commands
server_commands-disables cfg servers_cfg command param st r upper e =
    error-disables cfg servers_cfg param st r (rw (upper, server_commands) at e)
