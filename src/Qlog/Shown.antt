-- ===== src/Qlog/Shown.antt =====
-- What a replay sends: which lines, and where their times are put.
use miau.Prelude.{
  ℕ, suc, ◌-◌, ◌≡◌, inl, inr, refl, sym, ap, [], ◌∷◌, ◌++◌, map, Text, arith, Bool-cases,
  Option-cases, ◌==◌, if◌then◌else◌, length, get_or, take, take-append-drop, ==_sound,
}
use miau.Commands.{CmdHash}
use miau.Qlog.{QlogEntry, Log, oldest_of}
use miau.Qlog.Replay.{
  Timestamp, ts_none, ts_beginning, ts_end, ReplayCfg, gets_time, time_place, in_buffer,
  at_beginning, at_end, qlog_add_timestamp, skips, replay, qlog_replay, sent_first, kept_first,
}

-- The entries that a replay does not leave out.
unfoldable pub shown : ReplayCfg → ℕ → Log → Log
shown cfg oldest [] = []
shown cfg oldest (e ∷ log) =
    let rest = shown cfg oldest log in if skips cfg oldest e then rest else e ∷ rest

replay-none :
    (cfg : ReplayCfg) (oldest : ℕ) (log : Log)
    → cfg.timestamp ≡ ts_none
    → replay cfg oldest log ≡ (map (λ (e : QlogEntry). e.text) (shown cfg oldest log), log)
unfolding replay shown qlog_add_timestamp
replay-none cfg oldest [] none_set = refl
replay-none cfg oldest (e ∷ log) none_set = elim (Bool-cases (skips cfg oldest e)) [
  | inl s ↦ rw s (ap (kept_first e) (replay-none cfg oldest log none_set))
  | inr s ↦
      rw (s, none_set)
        (ap (λ r. sent_first e.text (kept_first e r)) (replay-none cfg oldest log none_set))
]

-- Without times, a replay sends the texts of exactly the entries that are neither too old nor, if the
-- configuration wants it, quits of the client's own, in order, and the log stays as it is.
pub qlog_replay-shown :
    (cfg : ReplayCfg) (now : ℕ) (log : Log) (oldest : ℕ)
    → cfg.timestamp ≡ ts_none
    → qlog_replay cfg now log oldest
      ≡ (map (λ (e : QlogEntry). e.text) (shown cfg (oldest_of now oldest) log), log)
unfolding qlog_replay
qlog_replay-shown cfg now log oldest none_set = replay-none cfg (oldest_of now oldest) log none_set

-- A line with the time put in, or left as it is, and the text that stays in the log.
pub data Stamped (stamp : Text) : Text → Text × Text → Type 0 where
  plain : {text : Text} → Stamped stamp text (text, text)
  inside :
      {text : Text} (a b : Text)
      → text ≡ a ++ b
      → Stamped stamp text (in_buffer (a ++ stamp ++ b' ' ∷ b), text)
  behind : {text : Text} → Stamped stamp text (in_buffer (text ++ b' ' ∷ stamp), text)
  ctcp :
      {text kept : Text}
      → text ≡ kept ++ 1 ∷ []
      → Stamped stamp text (in_buffer (kept ++ b' ' ∷ stamp ++ 1 ∷ []), kept)

last_at :
    (c : ℕ) (s : Text) → get_or (c ∷ s) (length s) 0 ≡ 1 → c ∷ s ≡ take (length s) (c ∷ s) ++ 1 ∷ []
last_at c [] h = rw h refl
last_at c (d ∷ s) h = ap (λ t. c ∷ t) (last_at d s h)

less_one : (n : ℕ) → suc n - 1 ≡ n
less_one n = omega arith

last_one :
    (text : Text)
    → get_or text (length text - 1) 0 ≡ 1
    → text ≡ take (length text - 1) text ++ 1 ∷ []
last_one [] h = absurd (ground arith)
last_one (c ∷ s) h = rw (less_one (length s)) (last_at c s (rw (less_one (length s)) at h))

at_beginning-Stamped : (stamp text : Text) → Stamped stamp text (at_beginning stamp text)
unfolding at_beginning
at_beginning-Stamped stamp text = elim (Option-cases (time_place text)) [
  | inl e ↦ rw (e, at_beginning) plain
  | inr (i, e) ↦ rw (e, at_beginning) (inside _ _ (sym (take-append-drop (suc i) text)))
]

at_end-Stamped : (stamp text : Text) → Stamped stamp text (at_end stamp text)
unfolding at_end
at_end-Stamped stamp text = elim (Bool-cases (get_or text (length text - 1) 0 == 1)) [
  | inl e ↦ rw (e, at_end) (ctcp (last_one text (==_sound _ 1 e)))
  | inr e ↦ rw (e, at_end) behind
]

-- Whatever the mode and the line: the line is sent as it is, or with the time and a space put in at one
-- place, or with a space and the time at its end, in front of a last byte of 1; cut to the buffer in
-- each case. The log keeps the text, but in the last case without its last byte.
pub qlog_add_timestamp-Stamped :
    (table : CmdHash) (mode : Timestamp) (stamp text : Text)
    → Stamped stamp text (qlog_add_timestamp table mode stamp text)
unfolding qlog_add_timestamp
qlog_add_timestamp-Stamped table ts_none stamp text = plain
qlog_add_timestamp-Stamped table ts_beginning stamp text =
    elim (Bool-cases (gets_time table text)) [
      | inl e ↦ rw (e, qlog_add_timestamp) (at_beginning-Stamped stamp text)
      | inr e ↦ rw (e, qlog_add_timestamp) plain
    ]
qlog_add_timestamp-Stamped table ts_end stamp text = elim (Bool-cases (gets_time table text)) [
  | inl e ↦ rw (e, qlog_add_timestamp) (at_end-Stamped stamp text)
  | inr e ↦ rw (e, qlog_add_timestamp) plain
]
