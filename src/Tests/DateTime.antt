-- ===== src/Tests/DateTime.antt =====
-- Calendar times at concrete seconds.
use coroutine_transaction.Base.{◌+◌, ◌/◌, ◌≡◌, refl, not, ◌==◌, pos, negsuc, arith}
use coroutine_transaction.Base.Signed.{◌+ℤ◌, ◌-ℤ◌, ◌≤ℤ◌, int_laws}
use coroutine_transaction.DateTime.{
  get_hour_start_time, get_day_start_time, get_week_start_time, get_passed_day, is_same_day,
  is_pass_day,
}
use coroutine_transaction.DateTime.Starts.{StartsAt, start_times-StartsAt, get_passed_day-days}

-- Ten minutes past noon on the second day of 1970, in a zone eight hours ahead, with a day from 5:00.
start_lem : pos 0 ≤ℤ pos 130200 +ℤ pos 28800 -ℤ pos 18000
start_lem = omega int_laws

start_times-StartsAt_example :
    StartsAt 3600
      (λ t. t +ℤ pos 28800 -ℤ pos 18000)
      (λ t. get_hour_start_time t (pos 18000) (pos 28800))
      (pos 130200)
    × StartsAt 86400
        (λ t. t +ℤ pos 28800 -ℤ pos 18000)
        (λ t. get_day_start_time t (pos 18000) (pos 28800))
        (pos 130200)
    × StartsAt 604800
        (λ t. t +ℤ pos 28800 -ℤ pos 18000 +ℤ pos 259200)
        (λ t. get_week_start_time t (pos 18000) (pos 28800))
        (pos 130200)
start_times-StartsAt_example = start_times-StartsAt (pos 130200) (pos 18000) (pos 28800) start_lem

local_lem :
    (pos 130200 +ℤ pos 28800 -ℤ pos 18000 ≡ pos 141000)
    × (pos 400000 +ℤ pos 28800 -ℤ pos 18000 ≡ pos 410800)
unfolding ◌+ℤ◌ ◌-ℤ◌
local_lem = (refl, refl)

get_passed_day-days_example :
    let days = get_passed_day (pos 130200) (pos 400000) (pos 18000) (pos 28800) in
    (days + 141000 / 86400 ≡ 410800 / 86400)
    × (is_same_day (pos 400000) (pos 130200) (pos 18000) (pos 28800) ≡ (days == 0))
    × (is_pass_day (pos 400000) (pos 130200) (pos 18000) (pos 28800) ≡ not (days == 0))
get_passed_day-days_example =
    get_passed_day-days (pos 130200) (pos 400000) (pos 18000) (pos 28800) 141000 410800 local_lem.0
      local_lem.1 (omega arith) (omega arith)

-- Before 1970 the quotient is cut upwards: the start of the day of a time lies after it.
before_1970_lem : get_day_start_time (negsuc 9) (pos 0) (pos 0) ≡ pos 0
unfolding get_day_start_time ◌+ℤ◌ ◌-ℤ◌
before_1970_lem = refl
