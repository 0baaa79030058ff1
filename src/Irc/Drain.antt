-- ===== src/Irc/Drain.antt =====
-- The queue of messages empties: how many seconds of the timers it takes, and the burst size at which
-- it never does.
use miau.Prelude.{
  ℕ, zero, suc, ◌+◌, ◌-◌, ◌*◌, ◌/◌, ◌≤◌, ◌<◌, ◌≡◌, ◌⊎◌, inl, inr, refl, ap, ◌∙◌, true, false, List,
  [], ◌∷◌, ◌++◌, map, Text, arith, Bool-cases, length, ==_ne,
}
use miau.Prelude.Int.{ℤ, pos, negsuc, above, below, add_nat}
use native.Mathlib.Nat.{div-eq-sub-div}
use miau.Irc.{
  Flood, FloodCfg, message, irc_write, irc_write_head, drain, charge, cap, allowed, allowance,
  check_flood, Event, write, write_head, tick, step, run,
}
use miau.Irc.Order.{Ordered, check-Ordered}

-- How far the counter is below 0.
abbrev pub debt : ℤ → ℕ
debt (pos n) = 0
debt (negsuc n) = suc n

-- What the seconds have to make up for.
abbrev pub work : Flood → ℕ
work st = length st.msg_queue * 2 + debt st.msgtimer

debt-charge : (t : ℤ) (buf : Text) → above 0 t ≡ true → debt (charge t buf) ≤ 1
unfolding charge
debt-charge (pos zero) buf h = ground arith
debt-charge (pos (suc zero)) buf h = ground arith
debt-charge (pos (suc (suc n))) buf h = ground arith
debt-charge (negsuc n) buf h = ground arith

drain-work :
    (t : ℤ) (queue sent : List Text) (f : ℕ)
    → debt t ≤ 1
    → work (drain t queue sent f) ≤ length queue * 2 + debt t
unfolding drain
drain-work t [] sent f h = omega arith
drain-work t (buf ∷ queue) sent f h = elim (Bool-cases (above 0 t)) [
  | inl e ↦ rw e (
      omega (
        arith,
        debt-charge t buf e,
        drain-work (charge t buf) queue (sent ++ buf ∷ []) f (debt-charge t buf e),
      ))
  | inr e ↦ rw e (omega arith)
]

-- A message that can be sent makes up for its own charge.
drain-lt :
    (t : ℤ) (buf : Text) (queue sent : List Text) (f : ℕ)
    → above 0 t ≡ true
    → work (drain t (buf ∷ queue) sent f) < suc (length queue) * 2
unfolding drain
drain-lt t buf queue sent f e = rw e (
    omega (
      arith,
      debt-charge t buf e,
      drain-work (charge t buf) queue (sent ++ buf ∷ []) f (debt-charge t buf e),
    ))

-- What the passing of time does to the counter.
debt-cap :
    (t : ℤ) (gain burst : ℕ)
    → 1 ≤ burst
    → 1 ≤ gain
    → (above 0 (cap (add_nat t gain) burst) ≡ true)
      ⊎ (suc (debt (cap (add_nat t gain) burst)) ≤ debt t)
unfolding cap
debt-cap (pos a) gain burst b g = ground arith
debt-cap (negsuc a) gain burst b g = ground arith

drain-waits :
    (t : ℤ) (queue sent : List Text) (f : ℕ)
    → above 0 t ≡ false
    → work (drain t queue sent f) ≡ length queue * 2 + debt t
unfolding drain
drain-waits t [] sent f h = omega arith
drain-waits t (buf ∷ queue) sent f h = rw h (omega arith)

drain-floodtime : (t : ℤ) (queue sent : List Text) (f : ℕ) → (drain t queue sent f).floodtime ≡ f
unfolding drain
drain-floodtime t [] sent f = refl
drain-floodtime t (buf ∷ queue) sent f = elim (Bool-cases (above 0 t)) [
  | inl e ↦ rw e (drain-floodtime (charge t buf) queue (sent ++ buf ∷ []) f)
  | inr e ↦ rw e refl
]

gain-le : (d f : ℕ) → 1 ≤ f → f ≤ d → 1 ≤ d / f
gain-le d f h le = rw (div-eq-sub-div h le) (omega arith)

drain_gains :
    (t : ℤ) (old : ℤ) (buf : Text) (queue sent : List Text) (f : ℕ)
    → (above 0 t ≡ true) ⊎ (suc (debt t) ≤ debt old)
    → work (drain t (buf ∷ queue) sent f) < suc (length queue) * 2 + debt old
drain_gains t old buf queue sent f (inl e) = omega (arith, drain-lt t buf queue sent f e)
drain_gains t old buf queue sent f (inr le) = elim (Bool-cases (above 0 t)) [
  | inl e ↦ omega (arith, drain-lt t buf queue sent f e)
  | inr e ↦ omega (arith, drain-waits t (buf ∷ queue) sent f e)
]

-- A state in which a message waits.
abbrev pub waiting : ℤ → Text → List Text → List Text → ℕ → Flood
waiting t buf queue sent floodtime = record {
  msgtimer = t;
  msg_queue = buf ∷ queue;
  sent = sent;
  floodtime = floodtime;
}

below_burst : (t : ℤ) (burst : ℕ) → 2 ≤ burst → above 1 t ≡ false → below t burst ≡ true
below_burst (pos a) burst b low = ground arith
below_burst (negsuc a) burst b low = refl

module _ (cfg : FloodCfg) (t : ℤ) (buf : Text) (queue sent : List Text) (floodtime n : ℕ) where
  check-runs :
      2 ≤ cfg.burstsize
      → floodtime + cfg.floodtimer ≤ n
      → above 1 t ≡ false
      → allowed cfg (waiting t buf queue sent floodtime) n ≡ true
  unfolding allowed
  check-runs b le low = rw (below_burst t cfg.burstsize b low) (ground arith)

  check-allowance :
      1 ≤ cfg.floodtimer
      → allowance cfg (waiting t buf queue sent floodtime) n
        ≡ cap (add_nat t ((n - floodtime) / cfg.floodtimer)) cfg.burstsize
  unfolding allowance
  check-allowance f = rw (==_ne cfg.floodtimer 0 (λ e. omega arith)) refl

  check-work :
      1 ≤ cfg.floodtimer
      → 2 ≤ cfg.burstsize
      → floodtime + cfg.floodtimer ≤ n
      → above 1 t ≡ false
      → (work (check_flood cfg (waiting t buf queue sent floodtime) n)
          < suc (length queue) * 2 + debt t)
        × ((check_flood cfg (waiting t buf queue sent floodtime) n).floodtime ≡ n)
  unfolding check_flood
  check-work f b le low =
      rw (check-runs b le low, check-allowance f)
        (let gained = cap (add_nat t ((n - floodtime) / cfg.floodtimer)) cfg.burstsize in
          (
            drain_gains gained t buf queue sent n (
                debt-cap t ((n - floodtime) / cfg.floodtimer) cfg.burstsize (omega arith)
                  (gain-le (n - floodtime) cfg.floodtimer f (omega arith))),
            drain-floodtime gained (buf ∷ queue) sent n,
          ))

-- Times of the timers, each as late as the flood control wants it after the one before.
unfoldable pub Spaced : ℕ → ℕ → List ℕ → Type 0
Spaced gap from [] = Unit
Spaced gap from (n ∷ times) = (from + gap ≤ n) × Spaced gap n times

drain-empty :
    (t : ℤ) (queue sent : List Text) (f : ℕ) → queue ≡ [] → (drain t queue sent f).msg_queue ≡ []
unfolding drain
drain-empty t [] sent f h = refl
drain-empty t (buf ∷ queue) sent f h = absurd (ground arith)

check-empty :
    (cfg : FloodCfg) (st : Flood) (n : ℕ)
    → st.msg_queue ≡ []
    → (check_flood cfg st n).msg_queue ≡ []
unfolding check_flood
check-empty cfg st n h = elim (Bool-cases (allowed cfg st n)) [
  | inl e ↦ rw (e, check_flood) (drain-empty (allowance cfg st n) st.msg_queue st.sent n h)
  | inr e ↦ rw (e, check_flood) h
]

empty_stays :
    (cfg : FloodCfg) (st : Flood) (times : List ℕ)
    → st.msg_queue ≡ []
    → (run cfg st (map tick times)).msg_queue ≡ []
unfolding run step
empty_stays cfg st [] h = h
empty_stays cfg st (n ∷ times) h =
    empty_stays cfg (check_flood cfg st n) times (check-empty cfg st n h)

full :
    (st : Flood)
    → Ordered st
    → (buf : Text) (queue : List Text) → st.msg_queue ≡ buf ∷ queue
    → above 1 st.msgtimer ≡ false
full st (inl e) buf queue h = ground arith
full st (inr e) buf queue h = e

empties :
    (cfg : FloodCfg) (t : ℤ) (queue sent : List Text) (floodtime : ℕ) (times : List ℕ)
    → 1 ≤ cfg.floodtimer
    → 2 ≤ cfg.burstsize
    → Ordered (record { msgtimer = t; msg_queue = queue; sent = sent; floodtime = floodtime })
    → Spaced cfg.floodtimer floodtime times
    → length queue * 2 + debt t ≤ length times
    → (run cfg
        (record { msgtimer = t; msg_queue = queue; sent = sent; floodtime = floodtime })
        (map tick times)).msg_queue
      ≡ []
unfolding run step Spaced
empties cfg t [] sent floodtime times f b o sp h =
    empty_stays cfg (record { msgtimer = t; msg_queue = []; sent = sent; floodtime = floodtime })
      times refl
empties cfg t (buf ∷ queue) sent floodtime [] f b o sp h = absurd (omega arith)
empties cfg t (buf ∷ queue) sent floodtime (n ∷ times) f b o (later, sp) h =
    let st = waiting t buf queue sent floodtime in
    let low = full st o buf queue refl in
    let (less, same) = check-work cfg t buf queue sent floodtime n f b later low in
    let next = check_flood cfg st n in
    empties cfg next.msgtimer next.msg_queue next.sent next.floodtime times f b
      (check-Ordered cfg st n o) (rw same sp) (omega arith)

-- Where the burst size is 2 or more and floodtimer is not 0, the queue empties: as many seconds,
-- floodtimer apart, as twice the messages that wait and what the counter is below 0 empty it.
pub run_empties :
    (cfg : FloodCfg) (st : Flood) (times : List ℕ)
    → 1 ≤ cfg.floodtimer
    → 2 ≤ cfg.burstsize
    → Ordered st
    → Spaced cfg.floodtimer st.floodtime times
    → work st ≤ length times
    → (run cfg st (map tick times)).msg_queue ≡ []
run_empties cfg st times f b o sp h =
    empties cfg st.msgtimer st.msg_queue st.sent st.floodtime times f b o sp h

-- A counter that is full at 1, which a burst size of 1 allows.
abbrev pub full_at_one : List Text → List Text → ℕ → Flood
full_at_one queue sent floodtime = record {
  msgtimer = pos 1;
  msg_queue = queue;
  sent = sent;
  floodtime = floodtime;
}

check-full :
    (cfg : FloodCfg) (queue sent : List Text) (floodtime n : ℕ)
    → cfg.burstsize ≡ 1
    → check_flood cfg (full_at_one queue sent floodtime) n ≡ full_at_one queue sent floodtime
unfolding check_flood allowed
check-full cfg queue sent floodtime n one = ground arith

-- Where the burst size is 1 and the counter is at 1: whatever is written and however much time passes,
-- nothing is sent any more, also if nothing waits at the start.
pub run_stuck :
    (cfg : FloodCfg) (queue sent : List Text) (floodtime : ℕ) (events : List Event)
    → cfg.burstsize ≡ 1
    → (run cfg (full_at_one queue sent floodtime) events).sent ≡ sent
unfolding run step irc_write irc_write_head
run_stuck cfg queue sent floodtime [] one = refl
run_stuck cfg queue sent floodtime (write text ∷ events) one =
    run_stuck cfg (queue ++ message text ∷ []) sent floodtime events one
run_stuck cfg queue sent floodtime (write_head text ∷ events) one =
    run_stuck cfg (message text ∷ queue) sent floodtime events one
run_stuck cfg queue sent floodtime (tick n ∷ events) one =
    ap (λ st. (run cfg st events).sent) (check-full cfg queue sent floodtime n one)
    ∙ (run_stuck cfg queue sent floodtime events one)
