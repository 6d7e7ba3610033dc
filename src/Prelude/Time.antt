-- ===== src/Prelude/Time.antt =====
-- Instants and durations are whole microseconds, the resolution of Python's `datetime`.
use Prim.Native.Nat.{ℕ, ◌*◌, ◌/◌}

-- A `datetime` with or without a time zone. The number is the wall clock, as microseconds since
-- the first representable day; of an aware value, the wall clock in UTC.
pub data DateTime : Type 0 where
  naive : ℕ → DateTime
  aware : ℕ → DateTime

abbrev pub second : ℕ
second = 1000000

abbrev pub day_length : ℕ
day_length = 86400 * second

-- `.date()` of an instant in UTC, as the number of the day
abbrev pub day_of : ℕ → ℕ
day_of t = t / day_length

-- `_as_utc` where a missing zone is read as UTC
unfoldable pub as_utc : DateTime → ℕ
as_utc (naive t) = t
as_utc (aware t) = t
