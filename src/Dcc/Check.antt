-- ===== src/Dcc/Check.antt =====
-- src/dcc.c: what is done about the sockets that `select` has found ready.
use miau.Prelude.{
  ℕ, Bool, true, not, ◌&&◌, Option, none, some, List, [], ◌==◌, if◌then◌else◌, length,
}
use miau.Prelude.Strings.{◌>>=◌}
use miau.Table.Sweep.{sweep}
use miau.Dcc.{Bounce, Dccs, Sent, dcc_bouncedata}

-- What the calls of the system give for a socket: whether it is in `readset` and in `writeset`, whether
-- connecting to the other side had an error, the connection that comes in, the new socket for the other
-- side, whether that can be connected, what waits to be read, how much can be sent, and whether the side
-- has ended, and how many bytes the second call of `recv` takes.
pub record Net : Type 0 where
  pub readable : ℕ → Bool
  pub writeable : ℕ → Bool
  pub sockopt : ℕ → Bool
  pub sock_accept : ℕ → Option ℕ
  pub sock_open : ℕ → Option ℕ
  pub connects : ℕ → Bool
  pub waiting : ℕ → List ℕ
  pub room : ℕ → Sent
  pub over : ℕ → Bool
  pub took : ℕ → ℕ

-- From socket `a` to socket `b`: none where the connection has ended, or the flag of `b`.
unfoldable pub bounce_data : Net → ℕ → ℕ → Bool → Option Bool
unfolding dcc_bouncedata
bounce_data net a b wrflag =
    let (on, left, flag) =
      dcc_bouncedata net.took (net.room b) (net.over a)
        (record { waiting = net.waiting a; passed = [] }) wrflag in
    if on then some flag else none

-- The other connection is being opened, or it is there: the one that waits is taken.
unfoldable pub take_connection : Net → Bounce → Option Bounce
take_connection net b =
    if net.sockopt b.dest
    then none
    else net.sock_accept b.src >>= (λ s. some (record b { src = s; connected = true }))

unfoldable pub open_other : Net → Bounce → Option Bounce
open_other net b =
    if not (b.dest == 0)
    then some b
    else net.sock_open b.src
      >>= (λ s. if net.connects s then some (record b { dest = s }) else none)

unfoldable pub read_src : Net → Bounce → Option Bounce
unfolding bounce_data open_other
read_src net b =
    if not (net.readable b.src)
    then some b
    else if not b.connected
    then open_other net b
    else bounce_data net b.src b.dest b.dest_wa >>= (λ f. some (record b { dest_wa = f }))

unfoldable pub read_dest : Net → Bounce → Option Bounce
unfolding bounce_data
read_dest net b =
    if b.connected && net.readable b.dest
    then bounce_data net b.dest b.src b.src_wa >>= (λ f. some (record b { src_wa = f }))
    else some b

unfoldable pub src_ready : Net → Bounce → Bounce
src_ready net b = if b.connected && net.writeable b.src then record b { src_wa = true } else b

unfoldable pub after_write : Net → Bounce → Option Bounce
unfolding take_connection read_src read_dest
after_write net b =
    if not (b.dest == 0) && net.writeable b.dest
    then (if not b.connected
        then take_connection net b
        else read_src net (record b { dest_wa = true }) >>= read_dest net)
    else read_src net b >>= read_dest net

-- One round of the loop.
unfoldable pub check_one : Net → Bounce → Option Bounce
unfolding after_write src_ready
check_one net b = after_write net (src_ready net b)

unfoldable pub dcc_socketcheck : Net → Dccs → Dccs
unfolding sweep check_one
dcc_socketcheck net dccs = sweep (check_one net) (length dccs) 0 dccs
