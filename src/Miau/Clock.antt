-- ===== src/Miau/Clock.antt =====
-- src/miau.c: `check_timers`, what happens once a second, in its order, without the allowance of messages
-- that it begins with (Irc.antt). What it has other parts do is the list `done`.
use miau.Prelude.{
  ℕ, zero, suc, ◌*◌, ◌/◌, ◌%◌, Bool, true, false, not, ◌&&◌, Option, none, some, List, [], ◌∷◌,
  ◌++◌, Text, ltb, ◌==◌, if◌then◌else◌, length,
}
use miau.Prelude.Int.{ℤ, above}
use miau.Miau.{inc, proceed_timer_safe, proceed_timer}

-- The nick that is wanted is `nick`; `pipe` is whether a pipe to the forwarding command can be opened, and
-- `after_change` what `server_change` leaves of the time to the next connection.
pub record ClockCfg : Type 0 where
  pub reconnects : Bool
  pub antiidle : ℕ
  pub stonedtimeout : ℕ
  pub getnick : ℕ
  pub getnickinterval : ℕ
  pub rejoin : Bool
  pub leave : ℕ
  pub forwards : Bool
  pub forwardtime : ℕ
  pub automodedelay : ℕ
  pub dccbounce : Bool
  pub nick : Text
  pub pipe : Bool
  pub after_change : ℤ

pub data Deed : Type 0 where
  process_ignores idle ping_server server_stoned bad_password ping_timeout auth_failed : Deed
  ping_client drop_client : ℕ → Deed
  try_nick forward : Text → Deed
  join_channels give_modes close_logs reset_warning check_dccs : Deed

-- The timers, and what the tests read. `clients` are the sockets of the clients with their timers.
pub record Clock : Type 0 where
  pub connect : ℤ
  pub antiidle : ℤ
  pub good_server_timer : ℤ
  pub listen : ℤ
  pub reply : ℤ
  pub nickname : ℤ
  pub join : ℤ
  pub forward_timer : ℤ
  pub automode : ℤ
  pub privlog : ℤ
  pub logfile_warn : ℤ
  pub server_timer : ℤ
  pub newclient_timer : ℤ
  pub clients : List (ℕ × ℤ)
  pub connected : ℕ
  pub good_server : Bool
  pub got_nick : Bool
  pub getting_nick : ℕ
  pub allowconnect : Bool
  pub allowreply : Bool
  pub newclient : Bool
  pub init : Bool
  pub ping_sent : ℕ
  pub automodes : ℕ
  pub unjoined : Bool
  pub forwardmsg : Option Text
  pub logs_open : Bool
  pub msgtimer : ℤ
  pub done : List Deed

abbrev pub do_it : List Deed → Clock → Clock
do_it ds st = record st { done = st.done ++ ds }

-- A client that says nothing is asked for a sign of life after a minute and then every ten seconds, and is
-- dropped after two.
unfoldable pub client_second : ℕ × ℤ → List (ℕ × ℤ) × List Deed
unfolding proceed_timer_safe
client_second (socket, timer) =
    let (r, t) = proceed_timer_safe timer 60 120 10 in
    if r == 2
    then ([], drop_client socket ∷ [])
    else ((socket, t) ∷ [], if r == 1 then ping_client socket ∷ [] else [])

unfoldable pub clients_second : List (ℕ × ℤ) → List (ℕ × ℤ) × List Deed
unfolding client_second
clients_second [] = ([], [])
clients_second (c ∷ cs) =
    let (left, deeds) = client_second c in
    let (lefts, more) = clients_second cs in (left ++ lefts, deeds ++ more)

unfoldable pub check_clients : Clock → Clock
unfolding clients_second
check_clients st =
    let (left, deeds) = clients_second st.clients in do_it deeds (record st { clients = left })

unfoldable pub check_idle : ClockCfg → Clock → Clock
unfolding proceed_timer
check_idle cfg st =
    let (r, t) = proceed_timer st.antiidle 0 (cfg.antiidle * 60) in
    if length st.clients == 0 && not (cfg.antiidle == 0)
    then do_it (if r == 2 then idle ∷ [] else []) (record st { antiidle = t })
    else st

-- The silence after which the server is asked for a sign of life.
abbrev pub warn_after : ℕ → ℕ
warn_after timeout =
    let warn = if ltb 45 (timeout / 2) then 45 else timeout / 2 in if ltb warn 5 then 5 else warn

unfoldable pub proved_good : Clock → Clock
unfolding proceed_timer
proved_good st =
    let (r, t) = proceed_timer st.good_server_timer 60 60 in
    if not st.good_server && st.connected == 2
    then record st { good_server_timer = t; good_server = if r == 0 then st.good_server else true }
    else st

abbrev pub server_result : ClockCfg → ℕ → Clock → Clock
server_result cfg zero st = proved_good st
server_result cfg (suc zero) st =
    do_it (ping_server ∷ []) (record st { ping_sent = suc st.ping_sent })
server_result cfg (suc (suc n)) st =
    do_it (server_stoned ∷ [])
      (record st { connected = 0; connect = cfg.after_change; good_server = false })

unfoldable pub check_server : ClockCfg → Clock → Clock
unfolding proceed_timer_safe proved_good
check_server cfg st =
    let timeout = if st.connected == 2 then cfg.stonedtimeout else 120 in
    let (r, t) = proceed_timer_safe st.server_timer (warn_after timeout) timeout 5 in
    if st.connected == 0 then st else server_result cfg r (record st { server_timer = t })

-- A connection that is not in after half a minute is closed.
unfoldable pub check_newclient : Clock → Clock
unfolding proceed_timer
check_newclient st =
    let (r, t) = proceed_timer st.newclient_timer 0 30 in
    if not st.newclient
    then st
    else if r == 2
    then do_it
        ((if st.init then bad_password else ping_timeout)
          ∷ (if length st.clients == 0 then [] else auth_failed ∷ []))
        (record st { newclient_timer = t; newclient = false; init = false })
    else record st { newclient_timer = t }

unfoldable pub check_throttles : Clock → Clock
unfolding proceed_timer
check_throttles st =
    let (r, t) = proceed_timer st.listen 0 15 in
    let (r', t') = proceed_timer st.reply 0 4 in
    record st {
      listen = t;
      allowconnect = if r == 2 then true else st.allowconnect;
      reply = t';
      allowreply = if r' == 2 then true else st.allowreply;
    }

-- Bit 1 of `getnick` is for times without a client, bit 2 for times with one.
abbrev pub wants_nick : ℕ → ℕ → Bool
wants_nick getnick clients = if clients == 0 then getnick % 2 == 1 else getnick / 2 % 2 == 1

unfoldable pub check_nick : ClockCfg → Clock → Clock
unfolding proceed_timer
check_nick cfg st =
    let (r, t) = proceed_timer st.nickname 0 cfg.getnickinterval in
    let moved = record st { nickname = t } in
    if not st.got_nick && not (cfg.getnick == 0) && st.connected == 2 && above 0 st.msgtimer
    then (if r == 2 && wants_nick cfg.getnick (length st.clients)
        then do_it (try_nick cfg.nick ∷ []) (record moved { getting_nick = suc st.getting_nick })
        else moved)
    else st

unfoldable pub check_join : ClockCfg → Clock → Clock
unfolding proceed_timer
check_join cfg st =
    let (r, t) = proceed_timer st.join 0 60 in
    if st.connected == 2
      && cfg.rejoin
      && st.unjoined
      && not (length st.clients == 0 && cfg.leave == 1)
    then do_it (if r == 2 then join_channels ∷ [] else []) (record st { join = t })
    else st

-- Text that waits is kept where the pipe cannot be opened.
abbrev pub forwarded : Bool → Option Text → Clock → Clock
forwarded pipe none st = st
forwarded pipe (some text) st =
    if pipe then do_it (forward text ∷ []) (record st { forwardmsg = none }) else st

unfoldable pub check_forward : ClockCfg → Clock → Clock
unfolding proceed_timer
check_forward cfg st =
    let (r, t) = proceed_timer st.forward_timer 0 cfg.forwardtime in
    let moved = record st { forward_timer = t } in
    if not cfg.forwards
    then st
    else if r == 2
    then forwarded cfg.pipe st.forwardmsg moved
    else moved

unfoldable pub check_modes : ClockCfg → Clock → Clock
unfolding proceed_timer
check_modes cfg st =
    let (r, t) = proceed_timer st.automode 0 cfg.automodedelay in
    if st.automodes == 0
    then st
    else do_it (if r == 2 then give_modes ∷ [] else []) (record st { automode = t })

unfoldable pub check_logs : Clock → Clock
unfolding proceed_timer
check_logs st =
    let (r, t) = proceed_timer st.privlog 0 30 in
    if st.logs_open
    then do_it (if r == 0 then [] else close_logs ∷ []) (record st { privlog = t })
    else st

unfoldable pub check_warning : Clock → Clock
unfolding proceed_timer
check_warning st =
    let (r, t) = proceed_timer st.logfile_warn 0 300 in
    do_it (if r == 0 then [] else reset_warning ∷ []) (record st { logfile_warn = t })

unfoldable pub check_connect : ClockCfg → Clock → Clock
check_connect cfg st =
    do_it (process_ignores ∷ [])
      (if cfg.reconnects then record st { connect = inc st.connect } else st)

unfoldable pub check_timers : ClockCfg → Clock → Clock
unfolding check_connect check_clients check_idle check_server check_newclient check_throttles
    check_nick check_join check_forward check_modes check_logs check_warning
check_timers cfg st =
    let served = check_server cfg (check_idle cfg (check_clients (check_connect cfg st))) in
    let joined = check_join cfg (check_nick cfg (check_throttles (check_newclient served))) in
    let logged = check_warning (check_logs (check_modes cfg (check_forward cfg joined))) in
    do_it (if cfg.dccbounce then check_dccs ∷ [] else []) logged
