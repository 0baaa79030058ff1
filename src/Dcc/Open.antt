-- ===== src/Dcc/Open.antt =====
-- src/dcc.c: a request that opens a connection, and the handlers of the requests.
use miau.Prelude.{
  ℕ, zero, suc, ◌+◌, ◌/◌, ◌%◌, ◌^◌, Bool, false, not, ◌||◌, Option, none, some, List, [], ◌∷◌, Text,
  codes, text_eq, ◌==◌, if◌then◌else◌,
}
use miau.Table.{table_add_item, table_rem_item, new_index}
use miau.Dcc.{Bounce, Dccs}
use miau.Dcc.Request.{
  Request, DccAnswer, read_request, dcc_resume, is_resume, arg_at, begun, unchanged,
}

-- What the calls of the system give: whether there is a host name for this side, the socket that is
-- opened, the ports it can be bound to, whether it can listen, the random numbers and the time.
pub record System : Type 0 where
  pub knows_host : Bool
  pub opened : Option ℕ
  pub sock_bind : ℕ → Bool
  pub sock_listen : Bool
  pub random : List ℕ
  pub now : ℕ

-- The low 16 bits, with the bit for 1024 set.
unfoldable pub port_of : ℕ → ℕ
port_of r = let low = r % 2 ^ 16 in if low / 1024 % 2 == 0 then low + 1024 else low

-- At most `tries` ports are tried. Where the numbers run out there is none either.
unfoldable pub bound_port : (ℕ → Bool) → ℕ → List ℕ → Option ℕ
unfolding port_of
bound_port binds zero rs = none
bound_port binds (suc tries) [] = none
bound_port binds (suc tries) (r ∷ rs) =
    let later = bound_port binds tries rs in if binds (port_of r) then some (port_of r) else later

-- A new connection is zeros, with the time.
unfoldable pub new_bounce : ℕ → Bounce
new_bounce now = record {
  src = 0;
  dest = 0;
  src_wa = false;
  dest_wa = false;
  connected = false;
  created = now;
  srcport = 0;
  destport = 0;
}

unfoldable pub given_up : Bounce → Dccs → Option DccAnswer × Dccs
given_up b dccs = (none, table_rem_item (table_add_item dccs b) (new_index dccs))

-- From the call of `sock_listen` on, where a port was found.
unfoldable pub port_found : System → Request → Bounce → Option ℕ → Dccs → Option DccAnswer × Dccs
unfolding given_up
port_found system dcc b none dccs = given_up b dccs
port_found system dcc b (some port) dccs =
    if not system.sock_listen then given_up (record b { srcport = port }) dccs else (
      some
          (begun dcc.type dcc.arg1 port (if dcc.argc == 5 then some (arg_at 2 dcc.args) else none)),
      table_add_item dccs (record b { srcport = port; destport = arg_at 1 dcc.args % 2 ^ 16 }),
    )

-- From the loop over the ports on, where a socket was opened.
unfoldable pub socket_found : System → Request → Bounce → Option ℕ → Dccs → Option DccAnswer × Dccs
unfolding given_up bound_port port_found
socket_found system dcc b none dccs = given_up b dccs
socket_found system dcc b (some socket) dccs =
    port_found system dcc (record b { src = socket }) (bound_port system.sock_bind 15 system.random)
      dccs

unfoldable pub dcc_realinitiate : System → Request → Dccs → Option DccAnswer × Dccs
unfolding new_bounce socket_found
dcc_realinitiate system dcc dccs =
    if not system.knows_host
    then (none, dccs)
    else socket_found system dcc (new_bounce system.now) system.opened dccs

unfoldable pub is_new : Text → Bool
is_new type = text_eq type (codes "CHAT") || text_eq type (codes "SEND")

unfoldable pub dcc_initiate : System → Text → Dccs → Option DccAnswer × Dccs
unfolding read_request dcc_resume is_new dcc_realinitiate
dcc_initiate system param dccs = elim (read_request param) [
  | none ↦ (none, dccs)
  | some dcc ↦ if is_new dcc.type then dcc_realinitiate system dcc dccs else (
    (if is_resume dcc.type || text_eq dcc.type (codes "ACCEPT")
        then dcc_resume dcc dccs
        else some unchanged),
    dccs,
  )
]
