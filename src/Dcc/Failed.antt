-- ===== src/Dcc/Failed.antt =====
-- src/dcc.c: a request that nothing comes of.
use miau.Prelude.{
  ℕ, ◌≡◌, refl, inl, inr, Bool, true, false, not, Option, none, some, Text, arith, Option-cases,
  if◌then◌else◌,
}
use miau.Table.Compact.{live}
use miau.Table.Entries.{added_and_removed}
use miau.Dcc.{Bounce, Dccs}
use miau.Dcc.Request.{Request, DccAnswer, read_request}
use miau.Dcc.Open.{
  System, given_up, bound_port, new_bounce, port_found, socket_found, dcc_realinitiate, is_new,
  dcc_initiate,
}

-- The connections are as before where there is no answer.
abbrev IsUndone : Dccs → Option DccAnswer × Dccs → Type 0
IsUndone dccs r = r.0 ≡ none → live r.1 ≡ live dccs

if_IsUndone :
    (dccs : Dccs) (b : Bool) (x y : Option DccAnswer × Dccs)
    → IsUndone dccs x
    → IsUndone dccs y
    → IsUndone dccs (if b then x else y)
if_IsUndone dccs true x y hx hy = hx
if_IsUndone dccs false x y hx hy = hy

given_up-IsUndone : (b : Bounce) (dccs : Dccs) → IsUndone dccs (given_up b dccs)
unfolding given_up
given_up-IsUndone b dccs e = added_and_removed dccs b

port_found-IsUndone :
    (system : System) (dcc : Request) (b : Bounce) (port : Option ℕ) (dccs : Dccs)
    → IsUndone dccs (port_found system dcc b port dccs)
unfolding port_found
port_found-IsUndone system dcc b none dccs = given_up-IsUndone b dccs
port_found-IsUndone system dcc b (some p) dccs =
    if_IsUndone dccs (not system.sock_listen) _ _
      (given_up-IsUndone (record b { srcport = p }) dccs) (λ e. absurd (ground arith))

socket_found-IsUndone :
    (system : System) (dcc : Request) (b : Bounce) (socket : Option ℕ) (dccs : Dccs)
    → IsUndone dccs (socket_found system dcc b socket dccs)
unfolding socket_found
socket_found-IsUndone system dcc b none dccs = given_up-IsUndone b dccs
socket_found-IsUndone system dcc b (some s) dccs =
    port_found-IsUndone system dcc (record b { src = s })
      (bound_port system.sock_bind 15 system.random) dccs

realinitiate-IsUndone :
    (system : System) (dcc : Request) (dccs : Dccs)
    → IsUndone dccs (dcc_realinitiate system dcc dccs)
unfolding dcc_realinitiate
realinitiate-IsUndone system dcc dccs =
    if_IsUndone dccs (not system.knows_host) _ _ (λ e. refl)
      (socket_found-IsUndone system dcc (new_bounce system.now) system.opened dccs)

-- A request that nothing comes of, at whatever step it failed, leaves the connections as they were.
pub dcc_initiate-IsUndone :
    (system : System) (param : Text) (dccs : Dccs)
    → (dcc_initiate system param dccs).0 ≡ none
    → live (dcc_initiate system param dccs).1 ≡ live dccs
unfolding dcc_initiate
dcc_initiate-IsUndone system param dccs = elim (Option-cases (read_request param)) [
  | inl e ↦ rw (e, dcc_initiate) (λ f. refl)
  | inr (dcc, e) ↦
      rw (e, dcc_initiate)
        (if_IsUndone dccs (is_new dcc.type) _ _ (realinitiate-IsUndone system dcc dccs) (λ f. refl))
]
