-- ===== src/Miau/Kept.antt =====
-- src/miau.c: what the other parts of `check_timers` leave as it is.
use miau.Prelude.{
  ℕ, zero, suc, ◌≡◌, ◌∙◌, inl, inr, refl, Bool, true, false, not, ◌&&◌, Option, none, some, Text,
  List, Bool-cases, ◌==◌, if◌then◌else◌, length,
}
use miau.Prelude.Int.{ℤ}
use miau.Miau.{proceed_timer_safe, proceed_timer}
use miau.Miau.Clock.{
  ClockCfg, Clock, check_idle, proved_good, server_result, check_server, check_newclient,
  check_throttles, check_join, forwarded, check_forward, check_modes, check_logs, check_warning,
  check_connect, warn_after,
}

-- The clients, the timer of the nick, and how often the nick was tried for.
abbrev pub kept : Clock → List (ℕ × ℤ) × ℤ × ℕ
kept st = (st.clients, st.nickname, st.getting_nick)

pub idle-kept : (cfg : ClockCfg) (st : Clock) → kept (check_idle cfg st) ≡ kept st
unfolding check_idle
idle-kept cfg st = elim (Bool-cases (length st.clients == 0 && not (cfg.antiidle == 0))) [
  | inl e ↦ rw e refl
  | inr e ↦ rw e refl
]

good-kept : (st : Clock) → kept (proved_good st) ≡ kept st
unfolding proved_good
good-kept st = elim (Bool-cases (not st.good_server && st.connected == 2)) [
  | inl e ↦ rw e refl
  | inr e ↦ rw e refl
]

result-kept : (cfg : ClockCfg) (r : ℕ) (st : Clock) → kept (server_result cfg r st) ≡ kept st
result-kept cfg zero st = good-kept st
result-kept cfg (suc zero) st = refl
result-kept cfg (suc (suc n)) st = refl

pub server-kept : (cfg : ClockCfg) (st : Clock) → kept (check_server cfg st) ≡ kept st
unfolding check_server
server-kept cfg st =
    let timeout = if st.connected == 2 then cfg.stonedtimeout else 120 in
    let moved = proceed_timer_safe st.server_timer (warn_after timeout) timeout 5 in
    let same = result-kept cfg moved.0 (record st { server_timer = moved.1 }) in
    elim (Bool-cases (st.connected == 0)) [ inl e ↦ rw e refl | inr e ↦ rw e same ]

pub newclient-kept : (st : Clock) → kept (check_newclient st) ≡ kept st
unfolding check_newclient
newclient-kept st = elim (Bool-cases st.newclient) [
  | inl e ↦ elim (Bool-cases ((proceed_timer st.newclient_timer 0 30).0 == 2)) [
    | inl f ↦ rw (e, f) refl
    | inr f ↦ rw (e, f) refl
  ]
  | inr e ↦ rw e refl
]

pub join-kept : (cfg : ClockCfg) (st : Clock) → kept (check_join cfg st) ≡ kept st
unfolding check_join
join-kept cfg st =
    elim (Bool-cases (
      st.connected == 2
      && cfg.rejoin
      && st.unjoined
      && not (length st.clients == 0 && cfg.leave == 1))) [ inl e ↦ rw e refl | inr e ↦ rw e refl ]

forwarded-kept :
    (pipe : Bool) (text : Option Text) (st : Clock) → kept (forwarded pipe text st) ≡ kept st
forwarded-kept pipe none st = refl
forwarded-kept true (some text) st = refl
forwarded-kept false (some text) st = refl

pub forward-kept : (cfg : ClockCfg) (st : Clock) → kept (check_forward cfg st) ≡ kept st
unfolding check_forward
forward-kept cfg st = elim (Bool-cases cfg.forwards) [
  | inr e ↦ rw e refl
  | inl e ↦
      let moved = proceed_timer st.forward_timer 0 cfg.forwardtime in
      let same = forwarded-kept cfg.pipe st.forwardmsg (record st { forward_timer = moved.1 }) in
      elim (Bool-cases (moved.0 == 2)) [ inl f ↦ rw (e, f) same | inr f ↦ rw (e, f) refl ]
]

pub modes-kept : (cfg : ClockCfg) (st : Clock) → kept (check_modes cfg st) ≡ kept st
unfolding check_modes
modes-kept cfg st = elim (Bool-cases (st.automodes == 0)) [ inl e ↦ rw e refl | inr e ↦ rw e refl ]

pub logs-kept : (st : Clock) → kept (check_logs st) ≡ kept st
unfolding check_logs
logs-kept st = elim (Bool-cases st.logs_open) [ inl e ↦ rw e refl | inr e ↦ rw e refl ]

pub connect-kept : (cfg : ClockCfg) (st : Clock) → kept (check_connect cfg st) ≡ kept st
unfolding check_connect
connect-kept cfg st = elim (Bool-cases cfg.reconnects) [ inl e ↦ rw e refl | inr e ↦ rw e refl ]

pub throttles-kept : (st : Clock) → kept (check_throttles st) ≡ kept st
unfolding check_throttles
throttles-kept st = refl

pub warning-kept : (st : Clock) → kept (check_warning st) ≡ kept st
unfolding check_warning
warning-kept st = refl

-- The parts between the clients and the nick, and those behind the nick.
pub early-kept :
    (cfg : ClockCfg) (st : Clock)
    → kept (check_throttles (check_newclient (check_server cfg (check_idle cfg st)))) ≡ kept st
early-kept cfg st =
    let c = check_idle cfg st in
    let d = check_server cfg c in
    throttles-kept (check_newclient d) ∙ newclient-kept d ∙ server-kept cfg c ∙ idle-kept cfg st

pub late-kept :
    (cfg : ClockCfg) (st : Clock)
    → kept (check_warning (check_logs (check_modes cfg (check_forward cfg (check_join cfg st)))))
      ≡ kept st
late-kept cfg st =
    let h = check_join cfg st in
    let i = check_forward cfg h in
    let j = check_modes cfg i in
    warning-kept (check_logs j)
    ∙ logs-kept j
    ∙ modes-kept cfg i
    ∙ forward-kept cfg h
    ∙ join-kept cfg st
