-- ===== src/Qlog/Flush.antt =====
-- What `qlog_flush` leaves in the quick log and adds to the inbox, on a log in the order of time.
use miau.Prelude.{
  ℕ, suc, ◌≤◌, ◌≡◌, ◌≢◌, inl, inr, refl, sym, ap, ◌∙◌, true, ◌&&◌, Option, none, some, List, [],
  ◌∷◌, ◌++◌, append-nil, append_assoc, Text, arith, All, Bool-cases, ◌==◌, if◌then◌else◌, codes,
}
use miau.Prelude.Int.{ℤ, below}
use miau.Prelude.Strings.{strstr}
use miau.Qlog.{
  QlogEntry, InboxLine, Log, Qlog, moved_lines, inbox_line, written_to, flush, qlog_flush,
}

-- The entries with a time after `oldest`, and the others.
unfoldable pub newer : ℤ → Log → Log
newer oldest [] = []
newer oldest (e ∷ log) =
    let rest = newer oldest log in if below oldest e.timestamp then e ∷ rest else rest

unfoldable pub older : ℤ → Log → Log
older oldest [] = []
older oldest (e ∷ log) =
    let rest = older oldest log in if below oldest e.timestamp then rest else e ∷ rest

-- The times of a log go up, from `t` on.
unfoldable pub Ascending : ℕ → Log → Type 0
Ascending t [] = Unit
Ascending t (e ∷ log) = (t ≤ e.timestamp) × Ascending e.timestamp log

-- A private message has a text.
abbrev pub HasText : QlogEntry → Type 0
HasText e = e.privmsg ≡ 1 → e.text ≢ []

abbrev pub or_none : Option (List InboxLine) → List InboxLine
or_none none = []
or_none (some lines) = lines

-- The lines that all the entries of a log add to the inbox.
unfoldable pub inbox_lines : ℕ → Log → List InboxLine
inbox_lines move [] = []
inbox_lines move (e ∷ log) = or_none (moved_lines move e) ++ inbox_lines move log

below_mono : (oldest : ℤ) (a b : ℕ) → a ≤ b → below oldest a ≡ true → below oldest b ≡ true
below_mono (ℤ.pos n) a b le h = ground arith
below_mono (ℤ.negsuc n) a b le h = refl

all_newer :
    (oldest : ℤ) (t : ℕ) (log : Log)
    → Ascending t log
    → below oldest t ≡ true
    → newer oldest log ≡ log
unfolding newer Ascending
all_newer oldest t [] h b = refl
all_newer oldest t (e ∷ log) (le, h) b =
    let now = below_mono oldest t e.timestamp le b in
    rw now (ap (λ l. e ∷ l) (all_newer oldest e.timestamp log h now))

none_older :
    (oldest : ℤ) (t : ℕ) (log : Log)
    → Ascending t log
    → below oldest t ≡ true
    → older oldest log ≡ []
unfolding older Ascending
none_older oldest t [] h b = refl
none_older oldest t (e ∷ log) (le, h) b =
    let now = below_mono oldest t e.timestamp le b in
    rw now (none_older oldest e.timestamp log h now)

found_some :
    (o : Option ℕ) (f : ℕ → Option (List InboxLine))
    → ((i : ℕ) → (l : List InboxLine) × (f i ≡ some l))
    → (l : List InboxLine) × ((elim o as (λ _. Option (List InboxLine)) [
      | none ↦ some []
      | some i ↦ f i
    ])
        ≡ some l)
found_some none f h = ([], refl)
found_some (some i) f h = h i

line_some :
    (o : Option InboxLine)
    → (l : List InboxLine) × ((elim o as (λ _. Option (List InboxLine)) [
      | none ↦ some []
      | some line ↦ some (line ∷ [])
    ])
        ≡ some l)
line_some none = ([], refl)
line_some (some line) = (line ∷ [], refl)

-- An entry with a text, or that is no private message, is no fault.
moved_lines_total :
    (move privmsg when : ℕ) (text : Text)
    → (privmsg ≡ 1 → text ≢ [])
    → (l : List InboxLine) × (moved_lines move
          (record { text = text; timestamp = when; privmsg = privmsg })
        ≡ some l)
unfolding moved_lines
moved_lines_total move privmsg when [] h = elim (Bool-cases (privmsg == 1)) [
  | inl e ↦ absurd (h (ground arith) refl)
  | inr e ↦ ([], rw e refl)
]
moved_lines_total move privmsg when (c ∷ s) h = elim (Bool-cases (privmsg == 1 && move == 1)) [
  | inl e ↦
      rw (e, moved_lines)
        (found_some (strstr s (codes " :")) _ (λ i. line_some (inbox_line (c ∷ s) when (suc i))))
  | inr e ↦ ([], rw (e, moved_lines) refl)
]

written_twice :
    (inbox : Option (List InboxLine)) (a b : List InboxLine)
    → written_to (written_to inbox a) b ≡ written_to inbox (a ++ b)
written_twice none a b = refl
written_twice (some l) a b = ap some (append_assoc l a b)

written_nothing : (inbox : Option (List InboxLine)) → written_to inbox [] ≡ inbox
written_nothing none = refl
written_nothing (some l) = ap some (append-nil l)

-- The log and the inbox where all goes as it should.
abbrev pub flushed : ℤ → ℕ → Log → Option (List InboxLine) → Qlog
flushed oldest move log inbox = record {
  qlog = newer oldest log;
  inbox = written_to inbox (inbox_lines move (older oldest log));
}

pub flush_lem :
    (oldest : ℤ) (move t : ℕ) (log : Log) (inbox : Option (List InboxLine))
    → Ascending t log
    → All HasText log
    → flush oldest move log inbox ≡ some (flushed oldest move log inbox)
unfolding flush newer older inbox_lines Ascending
flush_lem oldest move t [] inbox h texts =
    ap (λ i. some (record { qlog = []; inbox = i })) (sym (written_nothing inbox))
flush_lem oldest move t (e ∷ log) inbox (le, h) (text, texts) =
    elim (Bool-cases (below oldest e.timestamp)) [
      | inl b ↦
          rw
            (
              b,
              all_newer oldest e.timestamp log h b,
              none_older oldest e.timestamp log h b,
              written_nothing inbox,
            )
            refl
      | inr b ↦
          let (l, f) = moved_lines_total move e.privmsg e.timestamp e.text text in
          rw (b, f)
            (flush_lem oldest move e.timestamp log (written_to inbox l) h texts
              ∙ ap (λ i. some (record { qlog = newer oldest log; inbox = i }))
                  (written_twice inbox l _))
    ]

-- On a log in the order of time in which each private message has a text: flushing is no fault, keeps
-- exactly the entries with a time after `oldest`, and adds to the inbox, if it is open, the lines of
-- the private messages it drops, in order.
pub qlog_flush_lem :
    (st : Qlog) (oldest : ℤ) (move_to_inbox : ℕ)
    → Ascending 0 st.qlog
    → All HasText st.qlog
    → qlog_flush st oldest move_to_inbox ≡ some (flushed oldest move_to_inbox st.qlog st.inbox)
unfolding qlog_flush
qlog_flush_lem st oldest move h texts = flush_lem oldest move 0 st.qlog st.inbox h texts
