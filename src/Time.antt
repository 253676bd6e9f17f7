-- ===== src/Time.antt =====
-- Go's time.Time as nanoseconds since the Unix epoch, and time.Duration as nanoseconds.
use wilt_key.Prelude.{ℕ, ◌*◌, ◌/◌, ◌^◌, String}

abbrev pub second : ℕ
second = 10 ^ 9

abbrev pub minute : ℕ
minute = 60 * second

abbrev pub hour : ℕ
hour = 60 * minute

abbrev pub day : ℕ
day = 24 * hour

-- t.Unix()
abbrev pub unix : ℕ → ℕ
unix t = t / second

-- time.Now().Format with the layouts "200601021504", "2006010215" and "20060102", in the zone of
-- the relay.
pub record Calendar : Type 0 where
  pub minute_stamp : ℕ → String
  pub hour_stamp : ℕ → String
  pub day_stamp : ℕ → String
