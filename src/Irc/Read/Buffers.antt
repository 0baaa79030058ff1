-- ===== src/Irc/Read/Buffers.antt =====
-- The buffer of a connection as a C string: bytes stored behind others, and the end of a line.
use miau.Prelude.{
  ℕ, zero, suc, ◌-◌, ◌≤◌, ◌<◌, ◌≡◌, ◌≢◌, refl, sym, ap, ◌∙◌, inl, inr, true, false, [], ◌∷◌, ◌++◌,
  append_assoc, Text, arith, ◌⊎◌, ◌==◌, if◌then◌else◌, All, Bool-cases, length, length-append,
  length-set, set, get_or, ==_ne,
}
use miau.Irc.Read.{buffersize, Connection, before, finish, stored}

-- The C string that stands in a buffer.
abbrev pub c_string : Text → Text
c_string [] = []
c_string (b ∷ s) = if b == 0 then [] else b ∷ c_string s

-- A line without the carriage return at its end.
abbrev pub strip_cr : Text → Text
strip_cr [] = []
strip_cr (c ∷ []) = if c == 13 then [] else c ∷ []
strip_cr (c ∷ d ∷ s) = c ∷ strip_cr (d ∷ s)

-- The buffer holds the bytes `w`, and the next one goes behind them.
pub record Holds (c : Connection) (w : Text) : Type 0 where
  pub rest : Text
  pub buffer : c.buffer ≡ w ++ rest
  pub offset : c.offset ≡ length w
  pub size : length c.buffer ≡ buffersize

abbrev pub InLine : Text → Type 0
InLine = All (λ b. (b ≢ 10) × (b ≢ 0))

pub set-append : (w : Text) (x : ℕ) (r : Text) (y : ℕ) → set (w ++ x ∷ r) (length w) y ≡ w ++ y ∷ r
set-append [] x r y = refl
set-append (z ∷ w) x r y = ap (◌∷◌ z) (set-append w x r y)

pub get_or-append : (w : Text) (x : ℕ) (r : Text) → get_or (w ++ x ∷ r) (length w) 0 ≡ x
get_or-append [] x r = refl
get_or-append (z ∷ w) x r = get_or-append w x r

-- There is room for one more byte, which goes behind the others.
pub stored-Holds :
    (c : Connection) (w : Text) (b : ℕ)
    → Holds c w
    → length w < buffersize
    → Holds (stored c b) (w ++ b ∷ [])
stored-Holds c w b h room = go h.rest h.buffer
  where
    go : (rest : Text) → c.buffer ≡ w ++ rest → Holds (stored c b) (w ++ b ∷ [])
    go [] e = absurd (omega (arith, ap length e, length-append w [], h.size))
    go (x ∷ r) e = record {
      rest = r;
      buffer = rw (e, h.offset) (set-append w x r b ∙ sym (append_assoc w (b ∷ []) r));
      offset = omega (arith, h.offset, length-append w (b ∷ []));
      size = length-set c.buffer c.offset b ∙ h.size;
    }

-- A write behind the end of a C string leaves the string alone.
c_string-set :
    (v t : Text) (i : ℕ) → All (λ b. b ≢ 0) v → length v ≤ i → c_string (set (v ++ 0 ∷ t) i 0) ≡ v
c_string-set [] t zero h le = refl
c_string-set [] t (suc i) h le = refl
c_string-set (b ∷ v) t zero h le = absurd (omega arith)
c_string-set (b ∷ v) t (suc i) h le =
    rw (==_ne b 0 h.0) (ap (◌∷◌ b) (c_string-set v t i h.1 (omega arith)))

data LastView : Text → Type 0 where
  empty : LastView []
  ends : (v : Text) (x : ℕ) → LastView (v ++ x ∷ [])

last_view : (w : Text) → LastView w
last_view [] = empty
last_view (c ∷ w) = cons (last_view w)
  where
    cons : {u : Text} → LastView u → LastView (c ∷ u)
    cons empty = ends [] c
    cons (ends v x) = ends (c ∷ v) x

strip_cr-ends : (v : Text) (x : ℕ) → strip_cr (v ++ x ∷ []) ≡ (if x == 13 then v else v ++ x ∷ [])
strip_cr-ends [] x = refl
strip_cr-ends (c ∷ []) x = ground arith
strip_cr-ends (c ∷ d ∷ v) x = ground (arith, strip_cr-ends (d ∷ v) x)

All-front : (v : Text) (x : ℕ) → All (λ b. b ≢ 0) (v ++ x ∷ []) → All (λ b. b ≢ 0) v
All-front [] x h = tt
All-front (b ∷ v) x h = (h.0, All-front v x h.1)

before-ends :
    (v : Text) (x y : ℕ) (r : Text) → before ((v ++ x ∷ []) ++ y ∷ r) (length (v ++ x ∷ [])) ≡ x
unfolding before
before-ends v x y r =
    let size : length (v ++ x ∷ []) ≡ suc (length v) = omega (arith, length-append v (x ∷ [])) in
    rw (size, append_assoc v (x ∷ []) (y ∷ r)) (get_or-append v x (y ∷ r))

-- What `finish` makes of the text `w` with its end already written behind it.
ended_line :
    (w rest : Text)
    → LastView w
    → All (λ b. b ≢ 0) w
    → length w < buffersize
    → c_string (
        set
          (if before (w ++ 0 ∷ rest) (length w) == 13
            then set (w ++ 0 ∷ rest) (length w - 1) 0
            else w ++ 0 ∷ rest)
          (buffersize - 1)
          0)
      ≡ strip_cr w
unfolding before
ended_line w rest empty h room = c_string-set [] rest (buffersize - 1) tt (omega arith)
ended_line w rest (ends v x) h room =
    rw (before-ends v x 0 rest, strip_cr-ends v x) (split (Bool-cases (x == 13)))
  where
    size : length (v ++ x ∷ []) ≡ suc (length v)
    size = omega (arith, length-append v (x ∷ []))

    cut : (set ((v ++ x ∷ []) ++ 0 ∷ rest) (length (v ++ x ∷ []) - 1) 0) ≡ v ++ 0 ∷ 0 ∷ rest
    cut =
        let back : suc (length v) - 1 ≡ length v = omega arith in
        rw (size, back, append_assoc v (x ∷ []) (0 ∷ rest)) (set-append v x (0 ∷ rest) 0)

    split :
        ((x == 13) ≡ true) ⊎ ((x == 13) ≡ false)
        → c_string (
            set
              (if x == 13
                then set ((v ++ x ∷ []) ++ 0 ∷ rest) (length (v ++ x ∷ []) - 1) 0
                else (v ++ x ∷ []) ++ 0 ∷ rest)
              (buffersize - 1)
              0)
          ≡ (if x == 13 then v else v ++ x ∷ [])
    split (inl e) =
        rw (e, cut)
          (c_string-set v (0 ∷ rest) (buffersize - 1) (All-front v x h) (omega (arith, size)))
    split (inr e) = rw e (c_string-set (v ++ x ∷ []) rest (buffersize - 1) h (omega arith))

pub finish-offset : (c : Connection) → (finish c).offset ≡ 0
unfolding finish
finish-offset c = refl

pub finish-line :
    (c : Connection) (w : Text)
    → Holds c (w ++ 10 ∷ [])
    → All (λ b. b ≢ 0) w
    → length w < buffersize
    → c_string (finish c).buffer ≡ strip_cr w
unfolding finish
finish-line c w h nz room =
    let last : c.offset - 1 ≡ length w = omega (arith, h.offset, length-append w (10 ∷ [])) in
    let whole : c.buffer ≡ w ++ 10 ∷ h.rest = h.buffer ∙ append_assoc w (10 ∷ []) h.rest in
    rw (last, whole, set-append w 10 h.rest 0) (ended_line w h.rest (last_view w) nz room)
