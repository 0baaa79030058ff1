-- ===== src/Miau/Timer.antt =====
-- src/miau.c: how often a timer goes off.
use miau.Prelude.{
  ℕ, zero, suc, ◌+◌, ◌*◌, ◌≡◌, ◌<◌, ◌≤◌, refl, false, arith, dec_lt, ◌==◌, if◌then◌else◌,
}
use miau.Prelude.Int.{ℤ, pos, below, above}
use miau.Miau.{proceed_timer_safe}

-- How often a timer that starts at 0 has gone off in `k` seconds, and where it is then.
unfoldable pub seconds : ℕ → ℕ → ℕ → ℕ → ℕ × ℤ
unfolding proceed_timer_safe
seconds warn exceed repeat zero = (0, pos 0)
seconds warn exceed repeat (suc k) =
    let (fired, t) = seconds warn exceed repeat k in
    let (now, t') = proceed_timer_safe t warn exceed repeat in
    ((if now == 2 then suc fired else fired), t')

pub proceed-on :
    (warn exceed repeat n : ℕ)
    → suc n < exceed
    → ((proceed_timer_safe (pos n) warn exceed repeat).1 ≡ pos (suc n))
      × (((proceed_timer_safe (pos n) warn exceed repeat).0 == 2) ≡ false)
unfolding proceed_timer_safe
proceed-on warn exceed repeat n h = ground arith

pub proceed-off :
    (warn exceed repeat n : ℕ)
    → exceed ≤ suc n
    → proceed_timer_safe (pos n) warn exceed repeat ≡ (2, pos 0)
unfolding proceed_timer_safe
proceed-off warn exceed repeat n h = ground arith

-- The seconds that have passed are those of the rounds that went off, and those that the timer shows.
abbrev pub IsTimed : ℕ → ℕ → ℕ × ℤ → Type 0
IsTimed exceed k (fired, t) = (n : ℕ) × (t ≡ pos n) × (n < exceed) × (k ≡ fired * exceed + n)

-- A timer goes off every `exceed` seconds exactly, whatever it warns of in between, and shows the seconds
-- since the last time.
pub seconds-IsTimed :
    (warn exceed repeat k : ℕ) → 1 ≤ exceed → IsTimed exceed k (seconds warn exceed repeat k)
unfolding seconds
seconds-IsTimed warn exceed repeat zero h = (0, refl, omega arith, omega arith)
seconds-IsTimed warn exceed repeat (suc k) h =
    let (n, e, lt, sum) = seconds-IsTimed warn exceed repeat k h in
    elim (dec_lt (suc n) exceed) [
      | yes below ↦
          let (same, off) = proceed-on warn exceed repeat n below in
          (suc n, rw (e) same, below, rw (e, off) (omega arith))
      | no above ↦
          let off = proceed-off warn exceed repeat n (omega arith) in
          (0, rw (e, off) refl, omega arith, rw (e, off) (grind arith))
    ]
