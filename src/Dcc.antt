-- ===== src/Dcc.antt =====
-- src/dcc.c: connections between two clients that miau stands in the middle of. A connection has the
-- socket that listens for one side and is its connection then, `src`, and the one to the other side,
-- `dest`, which is 0 until it is opened.
pub mod Request
pub mod Open
pub mod Check
pub mod Run
pub mod Checked
pub mod Failed
pub mod Timeout
pub mod Pair
pub mod Kept
mod Examples
use miau.Prelude.{
  ℕ, zero, suc, ◌+◌, Bool, true, false, not, ◌&&◌, ◌||◌, Option, none, some, List, [], ◌∷◌, ◌++◌,
  ltb, ◌==◌, if◌then◌else◌, length, take, drop,
}
use miau.Table.Sweep.{sweep}

pub record Bounce : Type 0 where
  pub src : ℕ
  pub dest : ℕ
  pub src_wa : Bool
  pub dest_wa : Bool
  pub connected : Bool
  pub created : ℕ
  pub srcport : ℕ
  pub destport : ℕ

abbrev pub Dccs : Type 0
Dccs = List (Option Bounce)

-- A connection that nobody has come for within 80 seconds.
unfoldable pub is_late : ℕ → Bounce → Bool
is_late now b = b.dest == 0 && ltb (b.created + 80) now

abbrev pub unless_late : ℕ → Bounce → Option Bounce
unless_late now b = if is_late now b then none else some b

unfoldable pub dcc_timer : ℕ → Dccs → Dccs
unfolding sweep is_late
dcc_timer now dccs = sweep (unless_late now) (length dccs) 0 dccs

-- What the loop of `select` waits for: to read from, and to write to.
abbrev pub Waits : Type 0
Waits = List ℕ × List ℕ

abbrev pub when_set : Bool → ℕ → List ℕ
when_set b socket = if b then socket ∷ [] else []

unfoldable pub waits_for : Bounce → Waits
waits_for b = (
  when_set (not b.connected || b.dest_wa) b.src ++ when_set (b.connected && b.src_wa) b.dest,
  when_set (not (b.dest == 0) && not b.dest_wa) b.dest
      ++ when_set (b.connected && not b.src_wa) b.src,
)

unfoldable pub dcc_socketsubscribe : Dccs → Waits
unfolding waits_for
dcc_socketsubscribe [] = ([], [])
dcc_socketsubscribe (none ∷ dccs) = dcc_socketsubscribe dccs
dcc_socketsubscribe (some b ∷ dccs) =
    let (reads, writes) = waits_for b in
    let (more_reads, more_writes) = dcc_socketsubscribe dccs in
    (reads ++ more_reads, writes ++ more_writes)

-- What `recv` and `send` give: a number of bytes, that there is nothing for now (EAGAIN), or the end.
pub data Sent : Type 0 where
  bytes : ℕ → Sent
  again ended : Sent

-- The bytes that are looked at at a time.
unfoldable pub buffer_size : ℕ
buffer_size = 2048

-- The bytes that wait on one side, and those that went to the other.
pub record Pipe : Type 0 where
  pub waiting : List ℕ
  pub passed : List ℕ

-- The result, the bytes, and whether the other side can be written to still, where `chunk` was looked at.
-- `room` is how many bytes `send` takes; `over` is that the side has ended. `took`
-- is how many bytes the second call of `recv` takes of those that it is asked for.
unfoldable pub pass_on : (ℕ → ℕ) → Sent → Bool → Pipe → Bool → List ℕ → Bool × Pipe × Bool
pass_on took room over pipe wrflag [] = (not over, pipe, wrflag)
pass_on took ended over pipe wrflag (c ∷ cs) = (false, pipe, wrflag)
pass_on took again over pipe wrflag (c ∷ cs) = (false, pipe, false)
pass_on took (bytes zero) over pipe wrflag (c ∷ cs) = (false, pipe, wrflag)
pass_on took (bytes (suc n)) over pipe wrflag (c ∷ cs) =
    let sent = take (suc n) (c ∷ cs) in
    (
      true,
      record { waiting = drop (took (length sent)) pipe.waiting; passed = pipe.passed ++ sent },
      (if length sent == length (c ∷ cs) then wrflag else false),
    )

unfoldable pub dcc_bouncedata : (ℕ → ℕ) → Sent → Bool → Pipe → Bool → Bool × Pipe × Bool
unfolding pass_on
dcc_bouncedata took room over pipe wrflag =
    pass_on took room over pipe wrflag (take buffer_size pipe.waiting)
