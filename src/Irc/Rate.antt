-- ===== src/Irc/Rate.antt =====
-- How many messages can go out: each costs one of the counter, which each second fills up to the
-- burst size at most.
use miau.Prelude.{
  ℕ, zero, suc, ◌+◌, ◌*◌, ◌≤◌, ◌<◌, ◌≡◌, refl, inl, inr, true, List, [], ◌∷◌, ◌++◌, Text, arith,
  Bool-cases, length, length-append, ◌==◌,
}
use miau.Prelude.Int.{ℤ, pos, negsuc, dec, above, pos_part}
use miau.Irc.{
  Flood, FloodCfg, message, irc_write, irc_write_head, drain, charge, cap, allowed, allowance,
  check_flood, Event, write, write_head, tick, step, run,
}

-- The messages that are out or that the counter still lets out.
abbrev pub potential : Flood → ℕ
potential st = length st.sent + pos_part st.msgtimer

charge-lt : (t : ℤ) (buf : Text) → above 0 t ≡ true → pos_part (charge t buf) < pos_part t
unfolding charge
charge-lt (pos zero) buf h = ground arith
charge-lt (pos (suc zero)) buf h = ground arith
charge-lt (pos (suc (suc n))) buf h = ground arith
charge-lt (negsuc n) buf h = ground arith

drain-potential :
    (t : ℤ) (queue sent : List Text) (f : ℕ)
    → potential (drain t queue sent f) ≤ length sent + pos_part t
unfolding drain
drain-potential t [] sent f = omega arith
drain-potential t (buf ∷ queue) sent f = elim (Bool-cases (above 0 t)) [
  | inl e ↦ rw e (
      omega (
        arith,
        charge-lt t buf e,
        length-append sent (buf ∷ []),
        drain-potential (charge t buf) queue (sent ++ buf ∷ []) f,
      ))
  | inr e ↦ rw e (omega arith)
]

dec-potential : (t : ℤ) → above 1 t ≡ true → suc (pos_part (dec t)) ≡ pos_part t
dec-potential (pos zero) h = ground arith
dec-potential (pos (suc n)) h = refl
dec-potential (negsuc n) h = ground arith

write-potential : (st : Flood) (text : Text) → potential (irc_write st text) ≤ potential st
unfolding irc_write
write-potential st text = elim (Bool-cases (above 1 st.msgtimer)) [
  | inl e ↦
      rw e (omega (arith, dec-potential st.msgtimer e, length-append st.sent (message text ∷ [])))
  | inr e ↦ rw e (omega arith)
]

write_head-potential :
    (st : Flood) (text : Text) → potential (irc_write_head st text) ≤ potential st
unfolding irc_write_head
write_head-potential st text = elim (Bool-cases (above 1 st.msgtimer)) [
  | inl e ↦
      rw e (omega (arith, dec-potential st.msgtimer e, length-append st.sent (message text ∷ [])))
  | inr e ↦ rw e (omega arith)
]

cap-le : (t : ℤ) (burst : ℕ) → pos_part (cap t burst) ≤ burst
unfolding cap
cap-le (pos a) burst = ground arith
cap-le (negsuc a) burst = ground arith

allowance-le : (cfg : FloodCfg) (st : Flood) (n : ℕ) → pos_part (allowance cfg st n) ≤ cfg.burstsize
unfolding allowance
allowance-le cfg st n = elim (Bool-cases (cfg.floodtimer == 0)) [
  | inl e ↦ rw e (omega arith)
  | inr e ↦ rw e (cap-le _ cfg.burstsize)
]

check-potential :
    (cfg : FloodCfg) (st : Flood) (n : ℕ)
    → potential (check_flood cfg st n) ≤ potential st + cfg.burstsize
unfolding check_flood
check-potential cfg st n = elim (Bool-cases (allowed cfg st n)) [
  | inl e ↦ rw e (
      omega
        (arith, drain-potential (allowance cfg st n) st.msg_queue st.sent n, allowance-le cfg st n))
  | inr e ↦ rw e (omega arith)
]

abbrev pub ticks : List Event → ℕ
ticks [] = 0
ticks (write text ∷ events) = ticks events
ticks (write_head text ∷ events) = ticks events
ticks (tick n ∷ events) = suc (ticks events)

-- Whatever is written and however long miau waited: each second lets out the burst size at most, on
-- top of what the counter lets out at the start.
pub run-potential :
    (cfg : FloodCfg) (st : Flood) (events : List Event)
    → potential (run cfg st events) ≤ potential st + ticks events * cfg.burstsize
unfolding run step
run-potential cfg st [] = omega arith
run-potential cfg st (write text ∷ events) =
    omega (arith, write-potential st text, run-potential cfg (irc_write st text) events)
run-potential cfg st (write_head text ∷ events) =
    omega (arith, write_head-potential st text, run-potential cfg (irc_write_head st text) events)
run-potential cfg st (tick n ∷ events) =
    omega (arith, check-potential cfg st n, run-potential cfg (check_flood cfg st n) events)
