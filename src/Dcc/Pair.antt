-- ===== src/Dcc/Pair.antt =====
-- src/dcc.c: what goes from one side to the other.
use miau.Prelude.{
  ℕ, zero, suc, ◌≡◌, ◌≢◌, ◌∙◌, refl, sym, ap, inl, inr, Bool, true, false, Option, none, some, List,
  [], ◌∷◌, ◌++◌, append_assoc, arith, codes, Bool-cases, ◌==◌, ==_ne, ==_refl, ==_sound,
  if◌then◌else◌, length, take, drop, take-append-drop, length-take, ◌≤◌, All, map,
}
use miau.Table.Compact.{live}
use miau.Dcc.{Bounce, Dccs, Sent, Pipe, buffer_size, pass_on, dcc_bouncedata, bytes, again, ended}
use miau.Dcc.Request.{Request, other_port, dcc_resume, is_resume, arg_at, resumed, accepted}

length-take_drop :
    {A : Type 0} (k n : ℕ) (xs : List A)
    → take (length (take n (take k xs))) xs ≡ take n (take k xs)
length-take_drop k zero xs = refl
length-take_drop zero (suc n) xs = refl
length-take_drop (suc k) (suc n) [] = refl
length-take_drop (suc k) (suc n) (x ∷ xs) = ap (◌∷◌ x) (length-take_drop k n xs)

-- What `recv` does where as many bytes wait as it is asked for: it takes them.
abbrev pub Takes : (ℕ → ℕ) → List ℕ → Type 0
Takes took waiting = (n : ℕ) → n ≤ length waiting → took n ≡ n

moved_on :
    (k n : ℕ) (took : ℕ → ℕ) (pipe : Pipe) (chunk : List ℕ)
    → Takes took pipe.waiting
    → take k pipe.waiting ≡ chunk
    → let sent = take n chunk in
      (pipe.passed ++ sent) ++ drop (took (length sent)) pipe.waiting ≡ pipe.passed ++ pipe.waiting
moved_on k n took pipe chunk takes e = rw (sym e) (
    let sent = take n (take k pipe.waiting) in
    let whole : sent ++ drop (length sent) pipe.waiting ≡ pipe.waiting =
      cc (take-append-drop (length sent) pipe.waiting, length-take_drop k n pipe.waiting) in
    let fits : length sent ≤ length pipe.waiting =
      ground (arith, length-take n (take k pipe.waiting), length-take k pipe.waiting) in
    rw (takes (length sent) fits) (
      append_assoc pipe.passed sent (drop (length sent) pipe.waiting)
      ∙ ap (◌++◌ pipe.passed) whole))

-- The bytes of a pipe, in their order.
abbrev pub flow : Pipe → List ℕ
flow pipe = pipe.passed ++ pipe.waiting

pass_on-flow :
    (k : ℕ) (took : ℕ → ℕ) (room : Sent) (over : Bool) (pipe : Pipe) (wrflag : Bool)
    (chunk : List ℕ)
    → Takes took pipe.waiting
    → take k pipe.waiting ≡ chunk
    → flow (pass_on took room over pipe wrflag chunk).1 ≡ flow pipe
unfolding pass_on
pass_on-flow k took room over pipe wrflag [] h e = refl
pass_on-flow k took ended over pipe wrflag (c ∷ cs) h e = refl
pass_on-flow k took again over pipe wrflag (c ∷ cs) h e = refl
pass_on-flow k took (bytes zero) over pipe wrflag (c ∷ cs) h e = refl
pass_on-flow k took (bytes (suc n)) over pipe wrflag (c ∷ cs) h e =
    moved_on k (suc n) took pipe (c ∷ cs) h e

-- No byte is lost, doubled or put elsewhere when data goes on to the other side, whatever the calls give,
-- where `recv` takes the bytes that it is asked for and that wait.
pub dcc_bouncedata-flow :
    (took : ℕ → ℕ) (room : Sent) (over : Bool) (pipe : Pipe) (wrflag : Bool)
    → Takes took pipe.waiting
    → flow (dcc_bouncedata took room over pipe wrflag).1 ≡ flow pipe
unfolding dcc_bouncedata
dcc_bouncedata-flow took room over pipe wrflag h =
    pass_on-flow buffer_size took room over pipe wrflag (take buffer_size pipe.waiting) h refl

-- The other side's ports of the connections differ.
unfoldable pub AreApart : List ℕ → Type 0
AreApart [] = Unit
AreApart (p ∷ ps) = All (λ q. p ≢ q) ps × AreApart ps

abbrev pub destports : Dccs → List ℕ
destports dccs = map (λ (b : Bounce). b.destport) (live dccs)

taken_first :
    (b : Bool) (m q : ℕ) (o : Option ℕ) → b ≡ true → (if b then some m else o) ≡ some q → m ≡ q
taken_first true m q o h e = ground arith
taken_first false m q o h e = absurd (ground arith)

taken_later :
    (b : Bool) (m q : ℕ) (o : Option ℕ)
    → b ≡ false
    → (if b then some m else o) ≡ some q
    → o ≡ some q
taken_later true m q o h e = absurd (ground arith)
taken_later false m q o h e = e

-- A port that was found is that of a connection.
port_listed :
    (p q r : ℕ) (dccs : Dccs)
    → other_port true p dccs ≡ some q
    → All (λ q. r ≢ q) (destports dccs)
    → r ≢ q
unfolding other_port live
port_listed p q r [] e h = ground arith
port_listed p q r (none ∷ dccs) e h = port_listed p q r dccs e h
port_listed p q r (some b ∷ dccs) e (h, hs) = elim (Bool-cases (b.srcport == p)) [
  | inl same ↦
      λ f. h (f ∙ sym (taken_first (b.srcport == p) b.destport q (other_port true p dccs) same e))
  | inr other ↦
      port_listed p q r dccs
        (taken_later (b.srcport == p) b.destport q (other_port true p dccs) other e) hs
]

ports_back :
    (p q : ℕ) (dccs : Dccs)
    → AreApart (destports dccs)
    → other_port true p dccs ≡ some q
    → other_port false q dccs ≡ some p
unfolding other_port live AreApart
ports_back p q [] h e = ground arith
ports_back p q (none ∷ dccs) h e = ports_back p q dccs h e
ports_back p q (some b ∷ dccs) (h, hs) e = elim (Bool-cases (b.srcport == p)) [
  | inl same ↦
      let found = taken_first (b.srcport == p) b.destport q (other_port true p dccs) same e in
      rw (==_refl b.destport q found) (ap some (==_sound b.srcport p same))
  | inr other ↦
      let later = taken_later (b.srcport == p) b.destport q (other_port true p dccs) other e in
      rw (==_ne b.destport q (port_listed p q b.destport dccs later h))
        (ports_back p q dccs hs later)
]

-- The answer to a request to resume, with the port that the request was passed on with.
abbrev pub answer_to : Request → ℕ → Request
answer_to dcc q = record {
  type = codes "ACCEPT";
  arg1 = dcc.arg1;
  args = q ∷ arg_at 1 dcc.args ∷ [];
  argc = 4;
}

-- Where the other side's ports differ, a request to resume that is passed on with a port is answered with
-- that port, and the answer is passed on with the port of the request, and its place.
pub dcc_resume-answer :
    (dcc : Request) (dccs : Dccs) (q : ℕ)
    → is_resume dcc.type ≡ true
    → AreApart (destports dccs)
    → other_port true (arg_at 0 dcc.args) dccs ≡ some q
    → (dcc_resume dcc dccs ≡ some (resumed dcc.arg1 q (arg_at 1 dcc.args)))
      × (dcc_resume (answer_to dcc q) dccs
          ≡ some (accepted dcc.arg1 (arg_at 0 dcc.args) (arg_at 1 dcc.args)))
unfolding dcc_resume
dcc_resume-answer dcc dccs q r h e =
    let back = ports_back (arg_at 0 dcc.args) q dccs h e in (rw (r, e) refl, rw back refl)
