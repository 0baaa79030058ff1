-- ===== src/Server/Examples.antt =====
-- Runs of the choice of servers, of a lost connection and of changes of modes, and the theorems there.
use miau.Prelude.{
  ℕ, false, ◌++◌, ◌≡◌, ◌≢◌, refl, inl, Option, none, some, List, [], ◌∷◌, Text, arith, codes,
}
use miau.Prelude.Int.{pos}
use miau.Parser.{ServerType}
use miau.Channels.{Channels, new_channel}
use miau.Common.{same_nocase}
use miau.Channels.Heap.{times, places, IsHeap}
use miau.Server.{Servers, ServerCfg, Change, going, server_change}
use miau.Tools.{upcase, to_upper}
use miau.Irc.{irc_clear_queue}
use miau.Miau.Login.{Login}
use miau.Server.Drop.{DropCfg, Link, dropped, server_drop, forget}
use miau.Server.Commands.{Serviced, Commanded, closing_link, server_commands}
use miau.Server.Disabled.{server_commands-disables}
use miau.Server.Dropped.{kept, server_drop-kept}
use miau.Server.Modes.{Moded, parse_modes}
use miau.Server.Moded.{Group, render, apply_groups, after, parse_modes-apply_groups}

abbrev server : Text → ℕ → ServerType
server name working = record {
  name = name;
  port = pos 6667;
  password = none;
  timeout = pos 0;
  working = working;
}

abbrev listed : Servers
listed = record {
  servers =
      server (codes "fallback") 1
      ∷ server (codes "a") 1
      ∷ server (codes "b") 0
      ∷ server (codes "c") 1
      ∷ [];
  amount = 4;
  fresh = 0;
  current = 1;
  connected = 2;
  good_server = 0;
  reconnectdelay = 10;
  connect_timer = 0;
  said = [];
}

abbrev delays : ServerCfg
delays = record { delay = 10; nevergiveup = 0 }

abbrev chosen : Option Change → Option ℕ
chosen none = none
chosen (some (going st)) = some st.current
chosen (some (miau.Server.gave_up st)) = none

-- The server that does not work is passed over.
takes_c : chosen (server_change delays 1 1 listed) ≡ some 3
unfolding server_change
takes_c = refl

abbrev chans : Channels
chans = record {
  active_channels = new_channel 1 (codes "!ABCDEfoo") none ∷ [];
  passive_channels = new_channel 2 (codes "#b") none ∷ [];
  old_channels = [];
  next = 3;
}

chans-IsHeap : IsHeap chans
unfolding IsHeap places times
chans-IsHeap a = (ground arith, λ h. ground arith)

abbrev drops : DropCfg
drops = record {
  rejoin = 1;
  chandiscon = 2;
  nickname = codes "me";
  username = codes "u";
  hostname = codes "h";
}

abbrev link : Link
link = record {
  channels = chans;
  flood = record { msgtimer = pos 1; msg_queue = codes "JOIN #x" ∷ []; sent = []; floodtime = 0 };
  socket = 5;
  connected = 2;
  connect_timer = 9;
  realname = codes "irc.example.org";
  told = [];
  quit = none;
}

explained : some (codes "bye") ≢ none
explained e = ground arith

server_drop-kept_example :
    (after : Link) × (server_drop drops (some (codes "bye")) link ≡ some after)
    × (after.channels ≡ dropped chans (kept drops chans.active_channels chans.passive_channels))
    × (after.flood.msg_queue ≡ [])
    × (after.connected ≡ 0)
server_drop-kept_example = server_drop-kept drops (some (codes "bye")) link (inl explained)

abbrev unexplained : Option Text
unexplained = none

abbrev modes : Text
modes = codes "+ov-k me you key"

abbrev groups : List Group
groups =
    record { sign = b'+'; letter = b'o'; letters = b'v' ∷ [] }
    ∷ record { sign = b'-'; letter = b'k'; letters = [] }
    ∷ []

abbrev moded : Moded
moded = record { key = codes "key"; oper = pos 0; mode_queue = [] }

parse_modes-apply_groups_example :
    parse_modes (codes "me") modes moded
    ≡ some (
        after
          (apply_groups (codes "me") groups (codes "me" ∷ codes "you" ∷ codes "key" ∷ [], moded)))
unfolding render
parse_modes-apply_groups_example =
    parse_modes-apply_groups (codes "me") modes moded groups
      (codes "me" ∷ codes "you" ∷ codes "key" ∷ []) refl ((refl, (refl, tt)), ((refl, tt), tt))

-- miau is an operator then.
oper_known : parse_modes (codes "me") modes moded ≡ some (record moded { oper = pos 1 })
unfolding parse_modes miau.Common.same_nocase miau.Tools.lowcase miau.Tools.to_lower
oper_known = refl

-- A sign at the end leads the loop behind the text.
ends_in_sign : parse_modes (codes "me") (codes "+i-") moded ≡ none
unfolding parse_modes
ends_in_sign = refl

abbrev door : Login
door = record {
  nickname = none;
  username = none;
  hostname = none;
  connected = false;
  socket = 0;
  pass_seen = false;
  nick_seen = false;
  user_seen = false;
  passok = false;
  clients = [];
  names = (none, none, none);
}

abbrev serviced : Serviced
serviced = record { link = link; servers = listed; newclient = door }

abbrev failed : Text
failed = codes ":flood"

abbrev after_error : Commanded
after_error = record {
  link = closing_link failed (
      forget drops failed (record link {
        flood = irc_clear_queue link.flood;
        socket = 0;
        quit = some (codes "QUIT ::flood" ++ 13 ∷ 10 ∷ []);
      }));
  change = going (record listed {
    servers =
        server (codes "fallback") 1
        ∷ server (codes "a") 0
        ∷ server (codes "b") 0
        ∷ server (codes "c") 1
        ∷ [];
    current = 3;
    connected = 0;
  });
  newclient = door;
  pass = 0;
}

-- The server `a` that miau was on no longer works.
error_run : server_commands drops delays (codes "error") (some failed) serviced ≡ some after_error
unfolding server_commands to_upper miau.Channels.channel_simplify_name
error_run = refl

is_error : upcase (codes "error") ≡ codes "ERROR"
unfolding upcase to_upper
is_error = refl

server_commands-disables_example :
    some after_error.change
    ≡ server_change delays 1 1 (record listed { connected = 0; connect_timer = 0 })
server_commands-disables_example =
    server_commands-disables drops delays (codes "error") (some failed) serviced after_error
      is_error error_run
