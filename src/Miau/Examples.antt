-- ===== src/Miau/Examples.antt =====
-- Runs of the timers, of clients that want in, of tries for a nick and of clients that leave, and the
-- theorems there.
use miau.Prelude.{
  ℕ, ◌+◌, ◌≡◌, ◌*◌, refl, inl, true, false, none, some, List, [], ◌∷◌, ◌++◌, Text, codes, arith,
  length,
}
use miau.Prelude.Int.{pos, negsuc}
use miau.Prelude.Strings.{fields_by}
use miau.Channels.{new_channel}
use miau.Channels.Heap.{times, places, IsHeap}
use miau.Miau.Login.{
  LoginCfg, Login, is_password, newclient_line, line, accepted, closed, Event, run,
}
use miau.Miau.Locked.{gives_password, run-shut, says, says-in, next_one, says-stranger}
use miau.Miau.Nick.{NickCfg, Nicks, nick_next}
use miau.Miau.Tries.{tries, IsAt, tries-round}
use miau.Miau.Made.{IsReady, tries-IsReady}
use miau.Miau.Clock.{ClockCfg, Clock, client_second, ping_client}
use miau.Miau.Silent.{silence, silence-gone}
use miau.Miau.Away.{AwayCfg, Away, sent, clients_left, leave_channels}
use miau.Miau.Said.{leave_channels-part}

abbrev login_cfg : LoginCfg
login_cfg = record { password = codes "sesame"; crypt = λ word salt. word }

abbrev door : Login
door = record {
  nickname = none;
  username = none;
  hostname = none;
  connected = false;
  socket = 0;
  pass_seen = false;
  nick_seen = false;
  user_seen = false;
  passok = false;
  clients = [];
  names = (none, none, none);
}

abbrev wrong_lines : List Event
wrong_lines =
    accepted (codes "h") 5
    ∷ line (codes "PASS open")
    ∷ line (codes "NICK ali")
    ∷ line (codes "USER ali")
    ∷ closed
    ∷ []

run-shut_example :
    ((run login_cfg wrong_lines door).clients ≡ [])
    × ((run login_cfg wrong_lines door).passok ≡ false)
unfolding gives_password miau.Tools.to_upper
run-shut_example =
    run-shut login_cfg wrong_lines door (refl, (refl, (refl, (refl, (refl, tt))))) refl

lets_in :
    (run login_cfg
      (accepted (codes "h") 5
        ∷ line (codes "nick ali")
        ∷ line (codes "user ali 0 0 :Ali")
        ∷ line (codes "pass :sesame")
        ∷ [])
      door).clients
    ≡ 5 ∷ []
unfolding run miau.Tools.upcase miau.Tools.to_upper
lets_in = refl

abbrev there : Login
there = record door { connected = true; socket = 5 }

says-in_example :
    (says login_cfg (codes "sesame") (codes "ali") (codes "ali") there).clients ≡ 5 ∷ []
unfolding is_password
says-in_example =
    says-in login_cfg (codes "sesame") (codes "ali") (codes "ali") there refl refl refl refl

says-stranger_example :
    (says login_cfg (codes "open") (codes "eve") (codes "eve") (
      next_one
        (codes "h2")
        6
        (newclient_line login_cfg (codes "PASS") (codes "sesame") there))).clients
    ≡ 6 ∷ []
unfolding is_password
says-stranger_example =
    says-stranger login_cfg (codes "sesame") (codes "open") (codes "eve") (codes "eve") (codes "h2")
      6 there refl refl refl refl

abbrev nick_cfg : ℕ → NickCfg
nick_cfg fill = record { nickfillchar = fill; maxnicklen = 9; rand = λ n. n }

abbrev names : List Text
names = codes "one" ∷ codes "two" ∷ codes "three" ∷ []

abbrev signing : Nicks
signing = record {
  nicks = names;
  current = some 0;
  next = nick_next;
  gen_tries = 0;
  nickname = codes "one";
  got_nick = 1;
  getting_nick = 0;
  sent = [];
}

tries-round_example :
    (after : Nicks) × (rounds i : ℕ) × (tries (nick_cfg 0) 7 signing ≡ some after)
    × IsAt names i after
    × (7 ≡ rounds * length names + i)
tries-round_example =
    tries-round (nick_cfg 0) names signing 7 refl (refl, refl, refl, omega arith, refl)

tries-IsReady_example :
    (after : Nicks) × (tries (nick_cfg b'_') 50 signing ≡ some after)
    × IsReady (nick_cfg b'_') after
tries-IsReady_example =
    tries-IsReady (nick_cfg b'_') signing 50 (omega arith) refl
      (omega arith, inl (0, refl, refl, omega arith, refl))

abbrev clock_cfg : ClockCfg
clock_cfg = record {
  reconnects = true;
  antiidle = 1;
  stonedtimeout = 90;
  getnick = 3;
  getnickinterval = 60;
  rejoin = true;
  leave = 0;
  forwards = false;
  forwardtime = 180;
  automodedelay = 6;
  dccbounce = true;
  nick = codes "one";
  pipe = true;
  after_change = pos 0;
}

abbrev clock : Clock
clock = record {
  connect = pos 0;
  antiidle = pos 0;
  good_server_timer = pos 0;
  listen = pos 0;
  reply = pos 0;
  nickname = negsuc 9;
  join = pos 0;
  forward_timer = pos 0;
  automode = pos 0;
  privlog = pos 0;
  logfile_warn = pos 0;
  server_timer = pos 0;
  newclient_timer = pos 0;
  clients = (7, pos 0) ∷ (8, pos 59) ∷ [];
  connected = 2;
  good_server = false;
  got_nick = false;
  getting_nick = 0;
  allowconnect = false;
  allowreply = true;
  newclient = false;
  init = false;
  ping_sent = 0;
  automodes = 0;
  unjoined = true;
  forwardmsg = none;
  logs_open = false;
  msgtimer = pos 5;
  done = [];
}

pinged : client_second (8, pos 59) ≡ ((8, pos 60) ∷ [], ping_client 8 ∷ [])
unfolding client_second
pinged = refl

silence-gone_example : (silence clock_cfg 130 clock).clients ≡ []
silence-gone_example =
    silence-gone clock_cfg 130 clock
      ((0, refl, omega arith, omega arith), ((59, refl, omega arith, omega arith), tt))
      (omega arith)

abbrev away_cfg : AwayCfg
away_cfg = record {
  awaymsg = some (codes "gone");
  leavemsg = some (codes "bye");
  usequitmsg = false;
  leave = 1;
  rejoin = true;
  autoaway = true;
}

abbrev attached : Away
attached = record {
  channels = record {
    active_channels = new_channel 1 (codes "#a") none ∷ new_channel 2 (codes "#b") none ∷ [];
    passive_channels = [];
    old_channels = [];
    next = 3;
  };
  connected = 2;
  clients = 0;
  away = false;
  custom = false;
  awaymsg = none;
  told = [];
}

leaves :
    (clients_left away_cfg none attached).told
    ≡ sent (codes "PART #a,#b :bye") ∷ sent (codes "AWAY :gone") ∷ []
unfolding clients_left miau.Irc.cut
leaves = refl

attached-IsHeap : IsHeap attached.channels
unfolding IsHeap places times
attached-IsHeap a = ground arith

leave_channels-part_example :
    (line_names : Text) × ((leave_channels away_cfg none attached).told
      ≡ sent (codes "PART " ++ line_names ++ codes " :" ++ codes "bye") ∷ [])
    × (fields_by b',' [] line_names ≡ codes "#a" ∷ codes "#b" ∷ [])
unfolding miau.Miau.Away.chan_list
leave_channels-part_example =
    leave_channels-part away_cfg none (codes "bye") attached (new_channel 1 (codes "#a") none)
      (new_channel 2 (codes "#b") none ∷ []) refl refl refl
      ((refl, (refl, tt)), ((refl, (refl, tt)), tt)) (omega arith)
