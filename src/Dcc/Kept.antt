-- ===== src/Dcc/Kept.antt =====
-- src/dcc.c: what holds of every connection, whatever requests and events there were.
use mathlib.Core.Path.{subst}
use miau.Prelude.{
  ℕ, zero, suc, ◌≡◌, ◌≢◌, ◌<◌, ◌≤◌, ◌/◌, ◌%◌, refl, inl, inr, Bool, true, false, not, Option, none,
  some, List, [], ◌∷◌, Text, arith, Bool-cases, Option-cases, ◌==◌, ==_sound, if◌then◌else◌,
}
use miau.Table.Compact.{live}
use miau.Table.Entries.{table_add_item-All, added_and_removed}
use miau.Dcc.{Bounce, Dccs}
use miau.Dcc.Checked.{IsPaired, AllPaired, socketcheck-kept, timer-kept}
use miau.Dcc.Run.{DccEvent, asked, ready, second, dcc_step, dcc_run}
use miau.Dcc.Open.{
  System, given_up, bound_port, port_of, new_bounce, port_found, socket_found, dcc_realinitiate,
  dcc_initiate, is_new,
}
use miau.Dcc.Request.{Request, DccAnswer, read_request}

port_of-bounds : (r : ℕ) → (1024 ≤ port_of r) × (port_of r < 65536)
unfolding port_of
port_of-bounds r =
    let low = r % 65536 in
    let below : low < 65536 = omega arith in
    elim (Bool-cases (low / 1024 % 2 == 0)) [
      | inl e ↦ let even = ==_sound (low / 1024 % 2) 0 e in rw e (omega arith, omega arith)
      | inr e ↦
          let odd : low / 1024 % 2 ≢ 0 = λ z. absurd (ground arith) in
          rw e (omega arith, omega arith)
    ]

HasBounds : ℕ → Type 0
HasBounds p = (1024 ≤ p) × (p < 65536)

bound_port-bounds :
    (binds : ℕ → Bool) (tries : ℕ) (rs : List ℕ)
    → (p : ℕ) → bound_port binds tries rs ≡ some p
    → HasBounds p
unfolding bound_port HasBounds
bound_port-bounds binds zero rs p e = absurd (ground arith)
bound_port-bounds binds (suc tries) [] p e = absurd (ground arith)
bound_port-bounds binds (suc tries) (r ∷ rs) p e = elim (Bool-cases (binds (port_of r))) [
  | inl bound ↦ subst HasBounds (some_inj (rw bound at e)) (port_of-bounds r)
  | inr other ↦ bound_port-bounds binds tries rs p (rw other at e)
]
  where
    some_inj : {n k : ℕ} → some n ≡ some k → n ≡ k
    some_inj p = ground arith

given_up-kept : (b : Bounce) (dccs : Dccs) → AllPaired dccs → AllPaired (given_up b dccs).1
unfolding given_up
given_up-kept b dccs h = rw (added_and_removed dccs b) h

-- Where each of the results has the table in order.
if_table :
    (b : Bool) (x y : Option DccAnswer × Dccs)
    → AllPaired x.1
    → AllPaired y.1
    → AllPaired (if b then x else y).1
if_table true x y hx hy = hx
if_table false x y hx hy = hy

port_found-kept :
    (system : System) (dcc : Request) (b : Bounce) (port : Option ℕ) (dccs : Dccs)
    → b.connected ≡ false
    → ((p : ℕ) → port ≡ some p → HasBounds p)
    → AllPaired dccs
    → AllPaired (port_found system dcc b port dccs).1
unfolding port_found IsPaired HasBounds
port_found-kept system dcc b none dccs e bounds h = given_up-kept b dccs h
port_found-kept system dcc b (some p) dccs e bounds h =
    let (low, high) = bounds p refl in
    if_table (not system.sock_listen) _ _ (given_up-kept (record b { srcport = p }) dccs h)
      (table_add_item-All IsPaired dccs _ (rw e refl, low, high, omega arith) h)

socket_found-kept :
    (system : System) (dcc : Request) (b : Bounce) (socket : Option ℕ) (dccs : Dccs)
    → b.connected ≡ false
    → AllPaired dccs
    → AllPaired (socket_found system dcc b socket dccs).1
unfolding socket_found
socket_found-kept system dcc b none dccs e h = given_up-kept b dccs h
socket_found-kept system dcc b (some s) dccs e h =
    port_found-kept system dcc _ (bound_port system.sock_bind 15 system.random) dccs e
      (bound_port-bounds system.sock_bind 15 system.random) h

realinitiate-kept :
    (system : System) (dcc : Request) (dccs : Dccs)
    → AllPaired dccs
    → AllPaired (dcc_realinitiate system dcc dccs).1
unfolding dcc_realinitiate new_bounce
realinitiate-kept system dcc dccs h =
    if_table (not system.knows_host) _ _ h
      (socket_found-kept system dcc (new_bounce system.now) system.opened dccs refl h)

initiate-kept :
    (system : System) (param : Text) (dccs : Dccs)
    → AllPaired dccs
    → AllPaired (dcc_initiate system param dccs).1
unfolding dcc_initiate
initiate-kept system param dccs h = elim (Option-cases (read_request param)) [
  | inl e ↦ rw (e, dcc_initiate) h
  | inr (dcc, e) ↦
      rw (e, dcc_initiate) (if_table (is_new dcc.type) _ _ (realinitiate-kept system dcc dccs h) h)
]

step-kept : (e : DccEvent) (dccs : Dccs) → AllPaired dccs → AllPaired (dcc_step e dccs)
unfolding dcc_step
step-kept (asked system param) dccs h = initiate-kept system param dccs h
step-kept (ready net) dccs h = socketcheck-kept net dccs h
step-kept (second now) dccs h = timer-kept now dccs h

run-kept : (es : List DccEvent) (dccs : Dccs) → AllPaired dccs → AllPaired (dcc_run es dccs)
unfolding dcc_run
run-kept [] dccs h = h
run-kept (e ∷ es) dccs h = run-kept es (dcc_step e dccs) (step-kept e dccs h)

-- Whatever requests, sockets that are ready and seconds there were, and whatever the calls gave, a
-- connection that is up has its other side, the port that is listened at is from 1024 to 65535, and
-- the other side's is below 65536.
pub dcc_run-AllPaired : (es : List DccEvent) → AllPaired (dcc_run es [])
unfolding live
dcc_run-AllPaired es = run-kept es [] tt
