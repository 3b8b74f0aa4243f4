-- ===== src/Clock.antt =====
-- Aware UTC datetimes of the code, as microseconds since the epoch (the resolution of Python's
-- `datetime`), and the durations that the code names.
use mailfallback.Prelude.{ℕ, ◌/◌}

abbrev pub second : ℕ
second = 1000000

abbrev pub minute : ℕ
minute = 60000000

abbrev pub hour : ℕ
hour = 3600000000

abbrev pub day : ℕ
day = 86400000000

-- `dt.date()`: the UTC calendar day, as days since the epoch.
abbrev pub date : ℕ → ℕ
date t = t / day
