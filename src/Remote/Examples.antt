-- ===== src/Remote/Examples.antt =====
-- Runs of a command over the network, and the theorem at one.
use miau.Prelude.{◌≡◌, refl, true, false, none, [], ◌∷◌, ◌++◌, Text, codes, arith}
use miau.Prelude.Int.{pos, negsuc}
use miau.Miau.Clock.{ClockCfg, Clock}
use miau.Remote.{Remote, remote_cmd}
use miau.Remote.Released.{nick_seconds, remote_cmd-free}

abbrev clock_cfg : ClockCfg
clock_cfg = record {
  reconnects = true;
  antiidle = 1;
  stonedtimeout = 90;
  getnick = 3;
  getnickinterval = 60;
  rejoin = true;
  leave = 0;
  forwards = false;
  forwardtime = 180;
  automodedelay = 6;
  dccbounce = true;
  nick = codes "one";
  pipe = true;
  after_change = pos 0;
}

abbrev clock : Clock
clock = record {
  connect = pos 0;
  antiidle = pos 0;
  good_server_timer = pos 0;
  listen = pos 0;
  reply = pos 0;
  nickname = negsuc 9;
  join = pos 0;
  forward_timer = pos 0;
  automode = pos 0;
  privlog = pos 0;
  logfile_warn = pos 0;
  server_timer = pos 0;
  newclient_timer = pos 0;
  clients = (7, pos 0) ∷ (8, pos 59) ∷ [];
  connected = 2;
  good_server = false;
  got_nick = false;
  getting_nick = 0;
  allowconnect = false;
  allowreply = true;
  newclient = false;
  init = false;
  ping_sent = 0;
  automodes = 0;
  unjoined = true;
  forwardmsg = none;
  logs_open = false;
  msgtimer = pos 5;
  done = [];
}

abbrev calm : Remote
calm = record {
  flood = record { msgtimer = pos 5; msg_queue = []; sent = []; floodtime = 0 };
  nickname = pos 3;
  told = [];
}

abbrev crlf : Text
crlf = 13 ∷ 10 ∷ []

released_run : remote_cmd (codes "NICK") (codes "one 300") (codes "op") calm ≡ (
  0,
  record {
    flood = record {
      msgtimer = pos 3;
      msg_queue = [];
      sent =
          (codes "NOTICE op :Having nick 'one' for 300 second(s)" ++ crlf)
          ∷ (codes "NICK one" ++ crlf)
          ∷ [];
      floodtime = 0;
    };
    nickname = negsuc 299;
    told = codes "Having nick 'one' for 300 second(s)" ∷ [];
  },
)
unfolding remote_cmd
released_run = refl

carried_out : (remote_cmd (codes "NICK") (codes "one 5") (codes "op") calm).0 ≡ 0
unfolding remote_cmd
carried_out = refl

remote_cmd-free_example :
    let released = record clock {
      nickname = (remote_cmd (codes "NICK") (codes "one 5") (codes "op") calm).1.nickname;
    } in
    (nick_seconds clock_cfg 69 released).getting_nick ≡ clock.getting_nick
remote_cmd-free_example =
    remote_cmd-free clock_cfg clock (codes "NICK") (codes "one 5") (codes "op") calm 69
      (omega arith) carried_out (omega arith)
