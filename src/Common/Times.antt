-- ===== src/Common/Times.antt =====
-- The `time` crate's instants and durations, and the signed 64-bit columns that hold them.
--
-- An `OffsetDateTime` is the number of nanoseconds since `OffsetDateTime::MIN`, the first
-- instant of the year -9999. A `Duration` is a signed number of nanoseconds. Sums and differences
-- of the two panic outside the range of years that the crate represents.
use Prim.Native.Nat.{ℕ, zero, suc, ◌+◌, ◌-◌, ◌*◌, ◌^◌, ◌≤◌, ◌<◌}
use mathlib.Core.Path.{◌≡◌}
use mathlib.Core.Bool.{Bool, true, false, ◌&&◌}
use native.Mathlib.Omega.{arith}
use agent_knowledge_base_cod.Common.Tests.{leb, ltb, if◌then◌else◌}
use agent_knowledge_base_cod.Common.Results.{Result, ok, err}

-- `negsuc n` is -(n + 1).
pub data ℤ : Type 0 where
  pos : ℕ → ℤ
  negsuc : ℕ → ℤ

abbrev pub Time : Type 0
Time = ℕ

abbrev pub Duration : Type 0
Duration = ℤ

abbrev pub ns_per_second : ℕ
ns_per_second = 1000000000

abbrev pub ns_per_day : ℕ
ns_per_day = 86400 * ns_per_second

-- 1970-01-01T00:00:00Z
abbrev pub unix_epoch : Time
unix_epoch = 377705116800 * ns_per_second

-- 9999-12-31T23:59:59.999999999Z
abbrev pub max_time : Time
max_time = unix_epoch + 253402300800 * ns_per_second - 1

-- The instants whose Unix nanoseconds fit an `i64`.
abbrev pub min_ns : Time
min_ns = unix_epoch - 2 ^ 63

abbrev pub max_ns : Time
max_ns = unix_epoch + 2 ^ 63 - 1

abbrev pub i64_max : ℕ
i64_max = 2 ^ 63 - 1

abbrev pub u64_max : ℕ
u64_max = 2 ^ 64 - 1

abbrev pub seconds : ℕ → Duration
seconds n = pos (n * ns_per_second)

abbrev pub minutes : ℕ → Duration
minutes n = seconds (n * 60)

abbrev pub days : ℕ → Duration
days n = pos (n * ns_per_day)

-- `Duration::is_positive`
abbrev pub is_positive : Duration → Bool
is_positive (pos zero) = false
is_positive (pos (suc n)) = true
is_positive (negsuc n) = false

pub data TimeError : Type 0 where
  -- `+` or `-` left the crate's range: a panic
  panicked : TimeError
  -- `i64::try_from` refused the nanoseconds
  out_of_range : TimeError

-- `OffsetDateTime + Duration`
unfoldable pub add_time : Time → Duration → Result TimeError Time
add_time t (pos n) = if leb (t + n) max_time then ok (t + n) else err panicked
add_time t (negsuc n) = if ltb n t then ok (t - suc n) else err panicked

-- `OffsetDateTime - Duration`, for a duration that is not negative
unfoldable pub sub_time : Time → ℕ → Result TimeError Time
sub_time t n = if leb n t then ok (t - n) else err panicked

-- `timestamp_ns`: the column's value, which is kept as the instant that it stands for.
unfoldable pub timestamp_ns : Time → Result TimeError Time
timestamp_ns t = if leb min_ns t && leb t max_ns then ok t else err out_of_range

abbrev pub InRange : Time → Type 0
InRange t = (min_ns ≤ t) × (t ≤ max_ns)

pub timestamp_ns-eq-ok : (t : Time) {c : Time} → timestamp_ns t ≡ ok c → (c ≡ t) × InRange t
unfolding timestamp_ns
timestamp_ns-eq-ok t h = ground arith

pub timestamp_ns_fits : (t : Time) → InRange t → timestamp_ns t ≡ ok t
unfolding timestamp_ns
timestamp_ns_fits t h = ground arith

pub add_time-lt :
    (t : Time) (d : Duration) {u : Time} → is_positive d ≡ true → add_time t d ≡ ok u → t < u
unfolding add_time
add_time-lt t (pos zero) p h = cc
add_time-lt t (pos (suc n)) p h = ground arith
add_time-lt t (negsuc n) p h = cc

pub add_time-pos : (t n : ℕ) {u : Time} → add_time t (pos n) ≡ ok u → u ≡ t + n
unfolding add_time
add_time-pos t n h = ground arith
