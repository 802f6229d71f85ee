-- ===== src/DateTime.antt =====
-- The calendar arithmetic of common/datetime.h and datetime.cpp. A time is a number of seconds, and an
-- int64_t that does not overflow; the configured offset of the time zone is an argument.
pub mod Starts
use coroutine_transaction.Base.{
  ℕ, ◌-◌, ◌*◌, ◌%◌, ◌^◌, Bool, true, false, not, ℤ, pos, negsuc, eq_ℤ, if◌then◌else◌,
}
use coroutine_transaction.Base.Signed.{◌+ℤ◌, ◌-ℤ◌, leb_ℤ, quot, times}

-- common_def.h.
abbrev pub second_per_hour : ℕ
second_per_hour = 60 * 60

abbrev pub second_per_day : ℕ
second_per_day = 24 * second_per_hour

abbrev pub second_per_week : ℕ
second_per_week = 7 * second_per_day

abbrev pub unix_weekday_offset : ℤ
unix_weekday_offset = pos (3 * second_per_day)

pub get_hour_start_time : ℤ → ℤ → ℤ → ℤ
get_hour_start_time time offset tz =
    times (quot (time +ℤ tz -ℤ offset) second_per_hour) second_per_hour -ℤ (tz -ℤ offset)

unfoldable pub get_day_start_time : ℤ → ℤ → ℤ → ℤ
get_day_start_time time offset tz =
    times (quot (time +ℤ tz -ℤ offset) second_per_day) second_per_day -ℤ (tz -ℤ offset)

pub get_week_start_time : ℤ → ℤ → ℤ → ℤ
get_week_start_time time offset tz =
    times (quot (time +ℤ tz -ℤ offset +ℤ unix_weekday_offset) second_per_week) second_per_week
    -ℤ (tz -ℤ offset)
    -ℤ unix_weekday_offset

-- The conversion of an int64_t to a uint32_t.
abbrev pub as_u32 : ℤ → ℕ
as_u32 (pos n) = n % 2 ^ 32
as_u32 (negsuc n) = 2 ^ 32 - 1 - n % 2 ^ 32

pub get_passed_day : ℤ → ℤ → ℤ → ℤ → ℕ
unfolding get_day_start_time
get_passed_day begin cur offset tz =
    if leb_ℤ cur begin
    then 0
    else as_u32 (
        quot (get_day_start_time cur offset tz -ℤ get_day_start_time begin offset tz)
          second_per_day)

pub is_same_day : ℤ → ℤ → ℤ → ℤ → Bool
unfolding get_day_start_time
is_same_day now old offset tz =
    eq_ℤ (get_day_start_time now offset tz) (get_day_start_time old offset tz)

pub is_pass_day : ℤ → ℤ → ℤ → ℤ → Bool
unfolding get_day_start_time
is_pass_day now old offset tz =
    not (leb_ℤ (get_day_start_time now offset tz) (get_day_start_time old offset tz))

pub is_same_week : ℤ → ℤ → ℤ → ℤ → Bool
unfolding get_week_start_time
is_same_week now old offset tz =
    eq_ℤ (get_week_start_time now offset tz) (get_week_start_time old offset tz)

pub is_pass_week : ℤ → ℤ → ℤ → ℤ → Bool
unfolding get_week_start_time
is_pass_week now old offset tz =
    not (leb_ℤ (get_week_start_time now offset tz) (get_week_start_time old offset tz))
