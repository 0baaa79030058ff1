-- ===== src/Irc/Read.antt =====
-- src/irc.c: `irc_read`, one line from a socket that does not block, byte by byte. A call that finds
-- no data leaves what it read in the buffer, and the next call goes on behind it.
pub mod Buffers
pub mod Lines
use miau.Prelude.{
  ℕ, zero, suc, ◌+◌, ◌-◌, ◌≤◌, ◌<◌, ◌≡◌, ◌≢◌, refl, sym, ap, ◌∙◌, inl, inr, Bool, true, false, ◌&&◌,
  not, Option, none, some, List, [], ◌∷◌, ◌++◌, map, append-nil, append_assoc, Text, arith, ◌==◌,
  ltb, if◌then◌else◌, All, Bool-cases, length, length-append, length-set, set, get_or, ==_ne,
  ==_refl, lt→ltb,
}

abbrev pub buffersize : ℕ
buffersize = 1024

pub record Connection : Type 0 where
  pub timer : ℕ
  pub buffer : Text
  pub offset : ℕ

-- What `recv` gives: one byte, the end of the stream, EAGAIN, or another error.
pub data Recv : Type 0 where
  byte : ℕ → Recv
  closed again failed : Recv

-- 1, 0 and -1.
pub data ReadResult : Type 0 where
  received no_data error : ReadResult

-- The byte before the buffer is the last one of the timer, which is 0 by then.
unfoldable pub before : Text → ℕ → ℕ
before buffer zero = 0
before buffer (suc i) = get_or buffer i 0

-- What follows the loop.
unfoldable pub finish : Connection → Connection
unfolding before
finish c =
    let ended = set c.buffer (c.offset - 1) 0 in
    let stripped =
      if before ended (c.offset - 1) == 13 then set ended (c.offset - 1 - 1) 0 else ended in
    record c { buffer = set stripped (buffersize - 1) 0; offset = 0 }

-- The test of the loop, after `offset` was moved on.
unfoldable pub goes_on : Connection → Bool
goes_on c = not (get_or c.buffer (c.offset - 1) 0 == 10) && ltb c.offset (buffersize - 4)

abbrev pub moved : Connection → Connection
moved c = record c { timer = 0; offset = suc c.offset }

abbrev pub stored : Connection → ℕ → Connection
stored c b = record c { timer = 0; buffer = set c.buffer c.offset b; offset = suc c.offset }

-- The loop over what `recv` gives from now on. Behind the end of the list there is no data yet. The
-- result has the calls of `recv` that are left.
unfoldable pub irc_read : Connection → List Recv → ReadResult × Connection × List Recv
unfolding finish goes_on
irc_read c [] = (no_data, c, [])
irc_read c (closed ∷ recvs) = (error, c, recvs)
irc_read c (again ∷ recvs) = (no_data, c, recvs)
irc_read c (failed ∷ recvs) =
    let more = irc_read (moved c) recvs in
    if goes_on (moved c) then more else (received, finish (moved c), recvs)
irc_read c (byte b ∷ recvs) =
    let more = irc_read (stored c b) recvs in
    if goes_on (stored c b) then more else (received, finish (stored c b), recvs)
