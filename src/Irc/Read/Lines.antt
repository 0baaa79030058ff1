-- ===== src/Irc/Read/Lines.antt =====
-- A line comes out whole however the bytes are spread over the calls of `irc_read`.
use miau.Prelude.{
  ℕ, suc, ◌+◌, ◌-◌, ◌<◌, ◌≡◌, ◌≢◌, refl, ap, ◌∙◌, true, false, ◌&&◌, not, List, [], ◌∷◌, ◌++◌, map,
  append-nil, append_assoc, Text, arith, ◌==◌, ltb, All, length, length-append, set, get_or,
}
use miau.Irc.Read.{
  buffersize, Connection, Recv, byte, closed, again, failed, received, no_data, error, finish,
  goes_on, moved, stored, irc_read,
}
use miau.Irc.Read.Buffers.{
  Holds, InLine, c_string, strip_cr, set-append, get_or-append, stored-Holds, finish-offset,
  finish-line,
}

goes_on-stored :
    (c : Connection) (w : Text) (b : ℕ)
    → Holds c w
    → length w < buffersize
    → goes_on (stored c b) ≡ (not (b == 10) && ltb (suc (length w)) (buffersize - 4))
unfolding goes_on
goes_on-stored c w b h room = go h.rest h.buffer
  where
    go :
        (rest : Text)
        → c.buffer ≡ w ++ rest
        → (not (get_or (set c.buffer c.offset b) (suc c.offset - 1) 0 == 10)
            && ltb (suc c.offset) (buffersize - 4))
          ≡ (not (b == 10) && ltb (suc (length w)) (buffersize - 4))
    go [] e = absurd (omega (arith, ap length e, length-append w [], h.size))
    go (x ∷ r) e =
        let back : suc (length w) - 1 ≡ length w = omega arith in
        rw (e, h.offset, back, set-append w x r b, get_or-append w b r)

-- Bytes of one line are read up to what `recv` gives behind them.
read-bytes :
    (c : Connection) (w ws : Text) (recvs : List Recv)
    → Holds c w
    → InLine ws
    → length w + length ws < buffersize - 4
    → (c' : Connection) × (irc_read c (map byte ws ++ recvs) ≡ irc_read c' recvs)
      × Holds c' (w ++ ws)
unfolding irc_read
read-bytes c w [] recvs h i room = (c, refl, rw (append-nil w) h)
read-bytes c w (b ∷ ws) recvs h i room =
    let on : goes_on (stored c b) ≡ true = goes_on-stored c w b h (omega arith) ∙ ground arith in
    let (c', same, held) =
      read-bytes (stored c b) (w ++ b ∷ []) ws recvs (stored-Holds c w b h (omega arith)) i.1
        (omega (arith, length-append w (b ∷ []))) in
    (c', rw on same, rw (append_assoc w (b ∷ []) ws) at held)

-- With no end of the line yet, the bytes are kept behind those kept before.
pub irc_read-pause :
    (c : Connection) (w ws : Text) (recvs : List Recv)
    → Holds c w
    → InLine ws
    → length w + length ws < buffersize - 4
    → (c' : Connection) × (irc_read c (map byte ws ++ again ∷ recvs) ≡ (no_data, c', recvs))
      × Holds c' (w ++ ws)
unfolding irc_read
irc_read-pause c w ws recvs h i room = read-bytes c w ws (again ∷ recvs) h i room

InLine-nonzero : (w : Text) → InLine w → All (λ b. b ≢ 0) w
InLine-nonzero [] h = tt
InLine-nonzero (b ∷ w) h = (h.0.1, InLine-nonzero w h.1)

InLine-append : (w ws : Text) → InLine w → InLine ws → InLine (w ++ ws)
InLine-append [] ws h k = k
InLine-append (b ∷ w) ws h k = (h.0, InLine-append w ws h.1 k)

-- With the bytes `w` kept from earlier calls, and where the line has fewer than buffersize - 4
-- bytes in all, none of them 0: the rest of the line and its end give the whole line as a C string, without
-- a carriage return at its end, and the next line begins at the start of the buffer.
pub irc_read-line :
    (c : Connection) (w ws : Text) (recvs : List Recv)
    → Holds c w
    → InLine w
    → InLine ws
    → length w + length ws < buffersize - 4
    → (c' : Connection) × (irc_read c (map byte ws ++ byte 10 ∷ recvs) ≡ (received, c', recvs))
      × (c_string c'.buffer ≡ strip_cr (w ++ ws))
      × (c'.offset ≡ 0)
unfolding irc_read
irc_read-line c w ws recvs h i j room =
    let (c₁, same, held) = read-bytes c w ws (byte 10 ∷ recvs) h j room in
    let size : length (w ++ ws) < buffersize = omega (arith, length-append w ws) in
    let stops : goes_on (stored c₁ 10) ≡ false = goes_on-stored c₁ (w ++ ws) 10 held size in
    (
      finish (stored c₁ 10),
      same ∙ rw stops,
      finish-line (stored c₁ 10) (w ++ ws) (stored-Holds c₁ (w ++ ws) 10 held size)
          (InLine-nonzero (w ++ ws) (InLine-append w ws i j)) size,
      finish-offset (stored c₁ 10),
    )

-- The stream does not end.
abbrev pub NoEnd : List Recv → Type 0
NoEnd [] = Unit
NoEnd (byte b ∷ recvs) = NoEnd recvs
NoEnd (closed ∷ recvs) = ⊥
NoEnd (again ∷ recvs) = NoEnd recvs
NoEnd (failed ∷ recvs) = NoEnd recvs

-- As long as the stream does not end no error is reported, whatever errors `recv` gives.
pub irc_read_hides_errors :
    (c : Connection) (recvs : List Recv) → NoEnd recvs → (irc_read c recvs).0 ≢ error
unfolding irc_read
irc_read_hides_errors c [] n = ground arith
irc_read_hides_errors c (byte b ∷ recvs) n =
    ground (arith, irc_read_hides_errors (stored c b) recvs n)
irc_read_hides_errors c (closed ∷ recvs) n = absurd n
irc_read_hides_errors c (again ∷ recvs) n = ground arith
irc_read_hides_errors c (failed ∷ recvs) n = ground (arith, irc_read_hides_errors (moved c) recvs n)
