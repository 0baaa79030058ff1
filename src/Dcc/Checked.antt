-- ===== src/Dcc/Checked.antt =====
-- src/dcc.c: what holds of every connection after the sockets that are ready, and after the timer.
use miau.Prelude.{
  ℕ, ◌≡◌, ◌<◌, ◌≤◌, refl, inl, inr, Bool, true, false, not, ◌&&◌, ◌||◌, Option, none, some, All,
  arith, Bool-cases, ◌==◌, if◌then◌else◌,
}
use miau.Prelude.Strings.{◌>>=◌}
use miau.Table.Compact.{live}
use miau.Table.Entries.{KeptBy, filter_map-All}
use miau.Table.Sweep.{sweep_all}
use miau.Dcc.{Bounce, Dccs, dcc_timer, is_late, unless_late}
use miau.Dcc.Check.{
  Net, dcc_socketcheck, check_one, src_ready, after_write, take_connection, open_other, bounce_data,
  read_src, read_dest,
}

-- A connection has the other side open before it is connected, and ports that can be: the one that is
-- listened at is not one of the first 1024.
unfoldable pub IsPaired : Bounce → Type 0
IsPaired b =
    ((not b.connected || not (b.dest == 0)) ≡ true)
    × (1024 ≤ b.srcport)
    × (b.srcport < 65536)
    × (b.destport < 65536)

-- Every connection of the table.
abbrev pub AllPaired : Dccs → Type 0
AllPaired dccs = All IsPaired (live dccs)

-- Where every branch of a step keeps the invariant.
if_kept :
    (b : Bool) (x y : Option Bounce)
    → (b ≡ true → KeptBy IsPaired x)
    → (b ≡ false → KeptBy IsPaired y)
    → KeptBy IsPaired (if b then x else y)
if_kept true x y hx hy = hx refl
if_kept false x y hx hy = hy refl

then_kept :
    {B : Type 0} (o : Option B) (f : B → Option Bounce)
    → ((a : B) → o ≡ some a → KeptBy IsPaired (f a))
    → KeptBy IsPaired (o >>= f)
then_kept none f h = tt
then_kept (some a) f h = h a refl

then_dest :
    (net : Net) (o : Option Bounce) → KeptBy IsPaired o → KeptBy IsPaired (o >>= read_dest net)
unfolding read_dest IsPaired
then_dest net none h = tt
then_dest net (some b) h =
    if_kept (b.connected && net.readable b.dest) _ _
      (λ e. then_kept (bounce_data net b.dest b.src b.src_wa) _ (λ f e. h)) (λ e. h)

take_connection-kept :
    (net : Net) (b : Bounce)
    → not (b.dest == 0) ≡ true
    → IsPaired b
    → KeptBy IsPaired (take_connection net b)
unfolding take_connection IsPaired
take_connection-kept net b e (h, p, q, r) =
    if_kept (net.sockopt b.dest) _ _ (λ f. tt)
      (λ f. then_kept (net.sock_accept b.src) _ (λ s g. (e, p, q, r)))

open_other-kept :
    (net : Net) (b : Bounce)
    → not b.connected ≡ true
    → IsPaired b
    → KeptBy IsPaired (open_other net b)
unfolding open_other IsPaired
open_other-kept net b e (h, p, q, r) =
    if_kept (not (b.dest == 0)) _ _ (λ f. (h, p, q, r))
      (λ f.
        then_kept (net.sock_open b.src) _
          (λ s g. if_kept (net.connects s) _ _ (λ i. (rw e refl, p, q, r)) (λ i. tt)))

read_src-kept : (net : Net) (b : Bounce) → IsPaired b → KeptBy IsPaired (read_src net b)
unfolding read_src IsPaired
read_src-kept net b h =
    if_kept (not (net.readable b.src)) _ _ (λ e. h)
      (λ e.
        if_kept (not b.connected) _ _ (λ f. open_other-kept net b f h)
          (λ f. then_kept (bounce_data net b.src b.dest b.dest_wa) _ (λ g i. h)))

src_ready-kept : (net : Net) (b : Bounce) → IsPaired b → IsPaired (src_ready net b)
unfolding src_ready IsPaired
src_ready-kept net b h = elim (Bool-cases (b.connected && net.writeable b.src)) [
  | inl e ↦ rw (e, src_ready) h
  | inr e ↦ rw (e, src_ready) h
]

after_write-kept : (net : Net) (b : Bounce) → IsPaired b → KeptBy IsPaired (after_write net b)
unfolding after_write IsPaired
after_write-kept net b h =
    if_kept (not (b.dest == 0) && net.writeable b.dest) _ _
      (λ e.
        if_kept (not b.connected) _ _
          (λ f. take_connection-kept net b (first (not (b.dest == 0)) (net.writeable b.dest) e) h)
          (λ f. then_dest net _ (read_src-kept net (record b { dest_wa = true }) h)))
      (λ e. then_dest net _ (read_src-kept net b h))
  where
    first : (x y : Bool) → (x && y) ≡ true → x ≡ true
    first true y e = refl
    first false y e = absurd (ground arith)

check_one-kept : (net : Net) (b : Bounce) → IsPaired b → KeptBy IsPaired (check_one net b)
unfolding check_one
check_one-kept net b h = after_write-kept net (src_ready net b) (src_ready-kept net b h)

pub socketcheck-kept :
    (net : Net) (dccs : Dccs) → AllPaired dccs → AllPaired (dcc_socketcheck net dccs)
unfolding dcc_socketcheck
socketcheck-kept net dccs h =
    rw (sweep_all (check_one net) dccs)
      (filter_map-All IsPaired (check_one net) (live dccs) (check_one-kept net) h)

unless_late-kept : (now : ℕ) (b : Bounce) → IsPaired b → KeptBy IsPaired (unless_late now b)
unless_late-kept now b h = if_kept (is_late now b) _ _ (λ e. tt) (λ e. h)

pub timer-kept : (now : ℕ) (dccs : Dccs) → AllPaired dccs → AllPaired (dcc_timer now dccs)
unfolding dcc_timer
timer-kept now dccs h =
    rw (sweep_all (unless_late now) dccs)
      (filter_map-All IsPaired (unless_late now) (live dccs) (unless_late-kept now) h)
