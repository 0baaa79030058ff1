-- ===== src/Qlog/Window.antt =====
-- What the quick log holds after any lines were written to it: those of the last `qloglength` minutes.
use miau.Prelude.{
  ℕ, ◌*◌, ◌≤◌, ◌≡◌, ◌≢◌, inl, inr, refl, sym, ap, ◌∙◌, true, Option, none, some, List, [], ◌∷◌,
  ◌++◌, map, append-nil, append_assoc, Text, arith, All, Bool-cases,
}
use miau.Prelude.Int.{ℤ, below}
use miau.Prelude.Strings.{minus}
use miau.Qlog.{QlogEntry, InboxLine, Log, Qlog, cut_line, new_entry, qlog_write}
use miau.Qlog.Flush.{newer, Ascending, HasText, flushed, qlog_flush_lem}

-- A call of `qlog_write`.
pub record Write : Type 0 where
  pub time : ℕ
  pub privmsg : ℕ
  pub text : Text

abbrev pub entry_of : Write → QlogEntry
entry_of w = new_entry w.time w.privmsg w.text

unfoldable pub write_all : ℕ → Qlog → List Write → Option Qlog
unfolding qlog_write
write_all qloglength st [] = some st
write_all qloglength st (w ∷ ws) = elim (qlog_write qloglength w.time st w.privmsg w.text) [
  | none ↦ none
  | some st' ↦ write_all qloglength st' ws
]

-- The calls are in the order of time, and a private message has a text.
unfoldable pub InTime : ℕ → List Write → Type 0
InTime t [] = Unit
InTime t (w ∷ ws) = (t ≤ w.time) × InTime w.time ws

abbrev pub Speaks : Write → Type 0
Speaks w = w.privmsg ≡ 1 → w.text ≢ []

newer-append :
    (oldest : ℤ) (xs ys : Log) → newer oldest (xs ++ ys) ≡ newer oldest xs ++ newer oldest ys
unfolding newer
newer-append oldest [] ys = refl
newer-append oldest (e ∷ xs) ys = elim (Bool-cases (below oldest e.timestamp)) [
  | inl b ↦ rw (b, newer-append oldest xs ys) refl
  | inr b ↦ rw (b, newer-append oldest xs ys) refl
]

-- A later window is a part of an earlier one.
window_mono : (a b w t : ℕ) → a ≤ b → below (minus b w) t ≡ true → below (minus a w) t ≡ true
window_mono a b w t le h = ground arith

newer-newer :
    (a b w : ℕ) (log : Log)
    → a ≤ b
    → newer (minus b w) (newer (minus a w) log) ≡ newer (minus b w) log
unfolding newer
newer-newer a b w [] le = refl
newer-newer a b w (e ∷ log) le = elim (Bool-cases (below (minus b w) e.timestamp)) [
  | inl later ↦
      rw (window_mono a b w e.timestamp le later, newer, later, newer-newer a b w log le) refl
  | inr gone ↦ elim (Bool-cases (below (minus a w) e.timestamp)) [
    | inl h ↦ rw (h, newer, gone, newer-newer a b w log le) refl
    | inr h ↦ rw (h, newer, gone, newer-newer a b w log le) refl
  ]
]

-- A log that is in the order of time up to `last`, with a text for each private message.
abbrev pub Past : ℕ → QlogEntry → Type 0
Past last e = (e.timestamp ≤ last) × HasText e

newer-Ascending :
    (oldest : ℤ) (t : ℕ) (log : Log) → Ascending t log → Ascending t (newer oldest log)
unfolding newer Ascending
newer-Ascending oldest t [] h = tt
newer-Ascending oldest t (e ∷ log) (le, h) = elim (Bool-cases (below oldest e.timestamp)) [
  | inl b ↦ rw b (le, newer-Ascending oldest e.timestamp log h)
  | inr b ↦ rw b (newer-Ascending oldest t log (weaken t e.timestamp log le h))
]
  where
    weaken : (s t : ℕ) (log : Log) → s ≤ t → Ascending t log → Ascending s log
    weaken s t [] le h = tt
    weaken s t (e ∷ log) le (le', h) = (omega arith, h)

newer-All :
    (last : ℕ) (oldest : ℤ) (log : Log) → All (Past last) log → All (Past last) (newer oldest log)
unfolding newer
newer-All last oldest [] h = tt
newer-All last oldest (e ∷ log) (p, h) = elim (Bool-cases (below oldest e.timestamp)) [
  | inl b ↦ rw b (p, newer-All last oldest log h)
  | inr b ↦ rw b (newer-All last oldest log h)
]

snoc-Ascending :
    (t last : ℕ) (log : Log) (e : QlogEntry)
    → t ≤ e.timestamp
    → Ascending t log
    → All (Past last) log
    → last ≤ e.timestamp
    → Ascending t (log ++ e ∷ [])
unfolding Ascending
snoc-Ascending t last [] e h asc past le = (h, tt)
snoc-Ascending t last (f ∷ log) e h (le', asc) ((before, text), past) le =
    (le', snoc-Ascending f.timestamp last log e (omega arith) asc past le)

snoc-All :
    (last : ℕ) (log : Log) (e : QlogEntry)
    → All (Past last) log
    → Past last e
    → All (Past last) (log ++ e ∷ [])
snoc-All last [] e h p = (p, tt)
snoc-All last (f ∷ log) e (q, h) p = (q, snoc-All last log e h p)

All-later : (a b : ℕ) (log : Log) → a ≤ b → All (Past a) log → All (Past b) log
All-later a b [] le h = tt
All-later a b (e ∷ log) le ((p, text), h) = ((omega arith, text), All-later a b log le h)

texts : (last : ℕ) (log : Log) → All (Past last) log → All HasText log
texts last [] h = tt
texts last (e ∷ log) ((p, text), h) = (text, texts last log h)

cut_text : (text : Text) → text ≢ [] → cut_line text ≢ []
cut_text [] h = h
cut_text (c ∷ s) h = λ e. ground arith

-- One call, on a log of the past.
qlog_write_lem :
    (q last : ℕ) (st : Qlog) (w : Write)
    → Ascending 0 st.qlog
    → All (Past last) st.qlog
    → last ≤ w.time
    → Speaks w
    → (st' : Qlog) × (qlog_write q w.time st w.privmsg w.text ≡ some st')
      × (st'.qlog ≡ newer (minus w.time (q * 60)) st.qlog ++ entry_of w ∷ [])
      × Ascending 0 st'.qlog
      × All (Past w.time) st'.qlog
unfolding qlog_write
qlog_write_lem q last st w asc past le speaks =
    let oldest = minus w.time (q * 60) in
    let left = flushed oldest 1 st.qlog st.inbox in
    let kept = newer-All last oldest st.qlog past in
    (
      record left { qlog = left.qlog ++ entry_of w ∷ [] },
      rw (qlog_flush_lem st oldest 1 asc (texts last st.qlog past), qlog_write) refl,
      refl,
      snoc-Ascending 0 last left.qlog (entry_of w) (omega arith)
          (newer-Ascending oldest 0 st.qlog asc) kept le,
      snoc-All w.time left.qlog (entry_of w) (All-later last w.time left.qlog le kept)
          (omega arith, λ e. cut_text w.text (speaks e)),
    )

-- The log shows in every later window what all the lines do.
abbrev pub Agrees : ℕ → ℕ → Log → Log → Type 0
Agrees q last log all =
    (now : ℕ) → last ≤ now → newer (minus now (q * 60)) log ≡ newer (minus now (q * 60)) all

window_grows :
    (q last now : ℕ) (log all : Log) (e : QlogEntry)
    → Agrees q last log all
    → last ≤ now
    → Agrees q now (newer (minus now (q * 60)) log ++ e ∷ []) (all ++ e ∷ [])
window_grows q last now log all e agrees le later le' =
    newer-append (minus later (q * 60)) (newer (minus now (q * 60)) log) (e ∷ [])
    ∙ ap (λ l. l ++ newer (minus later (q * 60)) (e ∷ []))
        (newer-newer now later (q * 60) log le' ∙ agrees later (omega arith))
    ∙ sym (newer-append (minus later (q * 60)) all (e ∷ []))

window :
    (q last : ℕ) (st : Qlog) (all : Log) (ws : List Write) (w : Write)
    → Ascending 0 st.qlog
    → All (Past last) st.qlog
    → Agrees q last st.qlog all
    → InTime last (ws ++ w ∷ [])
    → All Speaks (ws ++ w ∷ [])
    → (st' : Qlog) × (write_all q st (ws ++ w ∷ []) ≡ some st')
      × (st'.qlog ≡ newer (minus w.time (q * 60)) (all ++ map entry_of ws) ++ entry_of w ∷ [])
unfolding write_all InTime
window q last st all [] w asc past agrees (le, times) (speaks, rest) =
    let (st', e, log, asc', past') = qlog_write_lem q last st w asc past le speaks in
    (
      st',
      rw (e, write_all) refl,
      log
          ∙ ap (λ l. l ++ entry_of w ∷ [])
              (agrees w.time le ∙ ap (λ l. newer (minus w.time (q * 60)) l) (sym (append-nil all))),
    )
window q last st all (v ∷ ws) w asc past agrees (le, times) (speaks, rest) =
    let (st₁, e, log, asc', past') = qlog_write_lem q last st v asc past le speaks in
    let (st', f, same) =
      window q v.time st₁ (all ++ entry_of v ∷ []) ws w asc' past'
        (rw log (window_grows q last v.time st.qlog all (entry_of v) agrees le)) times rest in
    (
      st',
      rw (e, write_all) f,
      same
          ∙ ap (λ l. newer (minus w.time (q * 60)) l ++ entry_of w ∷ [])
              (append_assoc all (entry_of v ∷ []) (map entry_of ws)),
    )

abbrev pub empty_log : Option (List InboxLine) → Qlog
empty_log inbox = record { qlog = []; inbox = inbox }

-- Whatever lines are written to an empty quick log, in the order of time and each private message with
-- a text: no call is a fault, and the log then holds the last line and, before it, those of the other
-- lines that are less than `qloglength` minutes older than it, in order.
pub write_all-newer :
    (qloglength : ℕ) (inbox : Option (List InboxLine)) (ws : List Write) (w : Write)
    → InTime 0 (ws ++ w ∷ [])
    → All Speaks (ws ++ w ∷ [])
    → (st' : Qlog) × (write_all qloglength (empty_log inbox) (ws ++ w ∷ []) ≡ some st')
      × (st'.qlog ≡ newer (minus w.time (qloglength * 60)) (map entry_of ws) ++ entry_of w ∷ [])
unfolding Ascending
write_all-newer q inbox ws w times speaks =
    window q 0 (empty_log inbox) [] ws w tt tt (λ now le. refl) times speaks
