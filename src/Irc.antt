-- ===== src/Irc.antt =====
-- src/irc.c: flood control of the messages to the server, with the allowance that check_timers of
-- src/miau.c gives. What `send` is given for the server is the list `sent`; messages to clients go
-- out at once and keep no state. Times are seconds.
pub mod Order
pub mod Rate
pub mod Drain
pub mod Track
pub mod Read
mod Examples
use miau.Prelude.{
  ℕ, zero, suc, ◌+◌, ◌-◌, ◌/◌, Bool, true, false, ◌&&◌, List, [], ◌∷◌, ◌++◌, Text, ltb, leb, ◌==◌,
  if◌then◌else◌, take,
}
use miau.Prelude.Int.{ℤ, pos, dec, add_nat, above, below}

abbrev pub irc_msglen : ℕ
irc_msglen = 520

pub record Flood : Type 0 where
  pub msgtimer : ℤ
  pub msg_queue : List Text
  pub sent : List Text
  pub floodtime : ℕ

-- The fields of `cfg` that the flood control reads.
pub record FloodCfg : Type 0 where
  pub floodtimer : ℕ
  pub burstsize : ℕ

-- The text that `vsnprintf` gives in `irc_write_smart`, cut to the buffer.
unfoldable pub cut : Text → Text
cut text = take (irc_msglen - 3) text

-- The text as it is sent, with the line's end.
unfoldable pub message : Text → Text
unfolding cut
message text = cut text ++ 13 ∷ 10 ∷ []

unfoldable pub send_now : Flood → Text → Flood
send_now st buffer = record st { msgtimer = dec st.msgtimer; sent = st.sent ++ buffer ∷ [] }

-- `irc_write` to the server.
unfoldable pub irc_write : Flood → Text → Flood
unfolding send_now message
irc_write st text =
    if above 1 st.msgtimer
    then send_now st (message text)
    else record st { msg_queue = st.msg_queue ++ message text ∷ [] }

-- `irc_write_head` to the server.
unfoldable pub irc_write_head : Flood → Text → Flood
unfolding send_now message
irc_write_head st text =
    if above 1 st.msgtimer
    then send_now st (message text)
    else record st { msg_queue = message text ∷ st.msg_queue }

unfoldable pub is_mode : Text → Bool
is_mode (m ∷ o ∷ d ∷ e ∷ rest) = m == b'M' && o == b'O' && d == b'D' && e == b'E'
is_mode other = false

-- What a message costs when it is sent from the queue.
unfoldable pub charge : ℤ → Text → ℤ
unfolding is_mode
charge t buf = if is_mode buf then dec (dec t) else dec t

-- The loop of `irc_process_queue` over the queue.
unfoldable pub drain : ℤ → List Text → List Text → ℕ → Flood
unfolding charge
drain t [] sent floodtime = record {
  msgtimer = t;
  msg_queue = [];
  sent = sent;
  floodtime = floodtime;
}
drain t (buf ∷ queue) sent floodtime =
    let rest = drain (charge t buf) queue (sent ++ buf ∷ []) floodtime in
    if above 0 t
    then rest
    else record { msgtimer = t; msg_queue = buf ∷ queue; sent = sent; floodtime = floodtime }

unfoldable pub irc_process_queue : Flood → Flood
unfolding drain
irc_process_queue st = drain st.msgtimer st.msg_queue st.sent st.floodtime

unfoldable pub irc_clear_queue : Flood → Flood
irc_clear_queue st = record st { msg_queue = [] }

unfoldable pub cap : ℤ → ℕ → ℤ
cap t burst = if above burst t then pos burst else t

-- The allowance of `check_timers` at the time `newtime`.
unfoldable pub allowance : FloodCfg → Flood → ℕ → ℤ
unfolding cap
allowance cfg st newtime =
    if cfg.floodtimer == 0
    then pos cfg.burstsize
    else cap (add_nat st.msgtimer ((newtime - st.floodtime) / cfg.floodtimer)) cfg.burstsize

-- Whether enough time has passed, and the counter is not full.
unfoldable pub allowed : FloodCfg → Flood → ℕ → Bool
allowed cfg st newtime =
    leb cfg.floodtimer (newtime - st.floodtime) && below st.msgtimer cfg.burstsize

unfoldable pub check_flood : FloodCfg → Flood → ℕ → Flood
unfolding allowed allowance irc_process_queue
check_flood cfg st newtime =
    if allowed cfg st newtime
    then irc_process_queue (record st { msgtimer = allowance cfg st newtime; floodtime = newtime })
    else st

-- What reaches the flood control: messages, urgent messages and seconds.
pub data Event : Type 0 where
  write write_head : Text → Event
  tick : ℕ → Event

unfoldable pub step : FloodCfg → Flood → Event → Flood
unfolding irc_write irc_write_head check_flood
step cfg st (write text) = irc_write st text
step cfg st (write_head text) = irc_write_head st text
step cfg st (tick newtime) = check_flood cfg st newtime

unfoldable pub run : FloodCfg → Flood → List Event → Flood
unfolding step
run cfg st [] = st
run cfg st (e ∷ events) = run cfg (step cfg st e) events
