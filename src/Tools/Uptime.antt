-- ===== src/Tools/Uptime.antt =====
-- `getuptime` splits a number of seconds.
use miau.Prelude.{ℕ, ◌+◌, ◌*◌, ◌<◌, ◌≡◌, arith}
use miau.Tools.{TimeParts, getuptime}

-- A splitting of `now` into units in range.
pub record Splits (now : ℕ) (u : TimeParts) : Type 0 where
  pub total : u.days * 86400 + u.hours * 3600 + u.minutes * 60 + u.seconds ≡ now
  pub hours : u.hours < 24
  pub minutes : u.minutes < 60
  pub seconds : u.seconds < 60

-- The parts that `getuptime` gives are in range and add up to the time that it was given.
pub getuptime-Splits : (now : ℕ) → Splits now (getuptime now)
unfolding getuptime
getuptime-Splits now = omega arith
