-- ===== src/Irc/Order.antt =====
-- Messages reach the server in the order in which they are written.
use miau.Prelude.{
  ℕ, ◌≡◌, refl, sym, ap, ◌∙◌, ◌⊎◌, inl, inr, true, false, List, [], ◌∷◌, ◌++◌, Text, arith,
  append-nil, append_assoc, Bool-cases,
}
use miau.Prelude.Int.{ℤ, above}
use miau.Irc.{
  Flood, FloodCfg, message, irc_write, irc_write_head, drain, charge, irc_process_queue, allowed,
  allowance, check_flood, Event, write, write_head, tick, step, run,
}

-- What was sent, and what waits behind it.
abbrev pub backlog : Flood → List Text
backlog st = st.sent ++ st.msg_queue

-- Messages wait only where none could be sent at once.
abbrev pub Ordered : Flood → Type 0
Ordered st = (st.msg_queue ≡ []) ⊎ (above 1 st.msgtimer ≡ false)

backlog-drain :
    (t : ℤ) (queue sent : List Text) (f : ℕ) → backlog (drain t queue sent f) ≡ sent ++ queue
unfolding drain
backlog-drain t [] sent f = refl
backlog-drain t (buf ∷ queue) sent f = elim (Bool-cases (above 0 t)) [
  | inl e ↦
      rw e (
        backlog-drain (charge t buf) queue (sent ++ buf ∷ []) f
        ∙ append_assoc sent (buf ∷ []) queue)
  | inr e ↦ rw e
]

-- `irc_process_queue` stops where the queue is empty or the counter forbids to send.
drain-Ordered :
    (t : ℤ) (queue sent : List Text) (f : ℕ)
    → ((drain t queue sent f).msg_queue ≡ []) ⊎ (above 0 (drain t queue sent f).msgtimer ≡ false)
unfolding drain
drain-Ordered t [] sent f = inl refl
drain-Ordered t (buf ∷ queue) sent f = elim (Bool-cases (above 0 t)) [
  | inl e ↦ rw e (drain-Ordered (charge t buf) queue (sent ++ buf ∷ []) f)
  | inr e ↦ rw e (inr e)
]

above_mono : (t : ℤ) → above 0 t ≡ false → above 1 t ≡ false
above_mono (ℤ.pos a) h = ground arith
above_mono (ℤ.negsuc a) h = refl

process-Ordered : (st : Flood) → Ordered (irc_process_queue st)
unfolding irc_process_queue
process-Ordered st = elim (drain-Ordered st.msgtimer st.msg_queue st.sent st.floodtime) [
  | inl e ↦ inl e
  | inr e ↦ inr (above_mono (drain st.msgtimer st.msg_queue st.sent st.floodtime).msgtimer e)
]

pub write-Ordered : (st : Flood) (text : Text) → Ordered st → Ordered (irc_write st text)
unfolding irc_write
write-Ordered st text o = elim (Bool-cases (above 1 st.msgtimer)) [
  | inl e ↦ rw e (ground arith)
  | inr e ↦ rw e (inr e)
]

write_head-Ordered : (st : Flood) (text : Text) → Ordered st → Ordered (irc_write_head st text)
unfolding irc_write_head
write_head-Ordered st text o = elim (Bool-cases (above 1 st.msgtimer)) [
  | inl e ↦ rw e (ground arith)
  | inr e ↦ rw e (inr e)
]

pub check-Ordered :
    (cfg : FloodCfg) (st : Flood) (n : ℕ) → Ordered st → Ordered (check_flood cfg st n)
unfolding check_flood
check-Ordered cfg st n o = elim (Bool-cases (allowed cfg st n)) [
  | inl e ↦ rw e (process-Ordered (record st { msgtimer = allowance cfg st n; floodtime = n }))
  | inr e ↦ rw e o
]

step-Ordered : (cfg : FloodCfg) (st : Flood) (e : Event) → Ordered st → Ordered (step cfg st e)
unfolding step
step-Ordered cfg st (write text) o = write-Ordered st text o
step-Ordered cfg st (write_head text) o = write_head-Ordered st text o
step-Ordered cfg st (tick n) o = check-Ordered cfg st n o

-- Where a message goes out at once, nothing waits.
nothing_waits : (st : Flood) → Ordered st → above 1 st.msgtimer ≡ true → st.sent ≡ backlog st
nothing_waits st (inl none_waits) e = rw none_waits (sym (append-nil st.sent))
nothing_waits st (inr full) e = absurd (ground arith)

at_once :
    (st : Flood) (m : Text)
    → Ordered st
    → above 1 st.msgtimer ≡ true
    → (st.sent ++ m ∷ []) ++ st.msg_queue ≡ st.sent ++ m ∷ []
at_once st m (inl none_waits) e = rw none_waits (append-nil (st.sent ++ m ∷ []))
at_once st m (inr full) e = absurd (ground arith)

-- A message goes behind everything that was written before.
pub backlog-irc_write :
    (st : Flood) (text : Text)
    → Ordered st
    → backlog (irc_write st text) ≡ backlog st ++ message text ∷ []
unfolding irc_write
backlog-irc_write st text o = elim (Bool-cases (above 1 st.msgtimer)) [
  | inl e ↦
      rw e (at_once st (message text) o e ∙ ap (λ l. l ++ message text ∷ []) (nothing_waits st o e))
  | inr e ↦ rw e (sym (append_assoc st.sent st.msg_queue (message text ∷ [])))
]

backlog-check : (cfg : FloodCfg) (st : Flood) (n : ℕ) → backlog (check_flood cfg st n) ≡ backlog st
unfolding check_flood
backlog-check cfg st n = elim (Bool-cases (allowed cfg st n)) [
  | inl e ↦ rw e (backlog-drain (allowance cfg st n) st.msg_queue st.sent n)
  | inr e ↦ rw e
]

-- The messages of a history without urgent ones, in order.
abbrev pub written : List Event → List Text
written [] = []
written (write text ∷ events) = message text ∷ written events
written (write_head text ∷ events) = written events
written (tick n ∷ events) = written events

abbrev pub NoUrgent : List Event → Type 0
NoUrgent [] = Unit
NoUrgent (write text ∷ events) = NoUrgent events
NoUrgent (write_head text ∷ events) = ⊥
NoUrgent (tick n ∷ events) = NoUrgent events

-- From a state in which messages wait only where none could be sent at once, whatever writes and
-- seconds follow: what was sent and what still waits are the messages in the order in which they
-- were written, none lost and none twice.
pub backlog-run :
    (cfg : FloodCfg) (st : Flood) (events : List Event)
    → Ordered st
    → NoUrgent events
    → backlog (run cfg st events) ≡ backlog st ++ written events
unfolding run step
backlog-run cfg st [] o n = sym (append-nil (backlog st))
backlog-run cfg st (write text ∷ events) o n =
    backlog-run cfg (irc_write st text) events (write-Ordered st text o) n
    ∙ ap (λ l. l ++ written events) (backlog-irc_write st text o)
    ∙ append_assoc (backlog st) (message text ∷ []) (written events)
backlog-run cfg st (write_head text ∷ events) o n = absurd n
backlog-run cfg st (tick t ∷ events) o n =
    backlog-run cfg (check_flood cfg st t) events (check-Ordered cfg st t o) n
    ∙ ap (λ l. l ++ written events) (backlog-check cfg st t)

-- The order is kept by every event, the urgent ones too.
pub run-Ordered :
    (cfg : FloodCfg) (st : Flood) (events : List Event) → Ordered st → Ordered (run cfg st events)
unfolding run
run-Ordered cfg st [] o = o
run-Ordered cfg st (e ∷ events) o = run-Ordered cfg (step cfg st e) events (step-Ordered cfg st e o)

-- `irc_process_queue` drops and reorders nothing, and stops only where the queue is empty or the
-- counter is 0 or below.
pub irc_process_queue_settles :
    (st : Flood)
    → (backlog (irc_process_queue st) ≡ backlog st)
      × (((irc_process_queue st).msg_queue ≡ [])
          ⊎ (above 0 (irc_process_queue st).msgtimer ≡ false))
unfolding irc_process_queue
irc_process_queue_settles st = (
  backlog-drain st.msgtimer st.msg_queue st.sent st.floodtime,
  drain-Ordered st.msgtimer st.msg_queue st.sent st.floodtime,
)
