-- ===== src/DateTime/Starts.antt =====
-- The start of an hour, a day and a week.
use coroutine_transaction.Base.{
  ℕ, ◌+◌, ◌-◌, ◌*◌, ◌/◌, ◌≤◌, ◌<◌, ◌≡◌, ◌∙◌, refl, sym, ap, inl, inr, true, false, ℤ, pos, negsuc,
  eq_ℤ, arith, ◌==◌, ◌≢◌, leb, ==-self, ==-ne, ℕ-cases, Bool-cases, not, ◌^◌,
}
use coroutine_transaction.Base.Signed.{
  ◌+ℤ◌, ◌-ℤ◌, ◌≤ℤ◌, pos_part, neg_part, leb_ℤ, eq_of_parts, int_laws,
}
use coroutine_transaction.DateTime.{
  unix_weekday_offset, get_hour_start_time, get_day_start_time, get_week_start_time, get_passed_day,
  is_same_day, is_pass_day,
}

-- `start` goes back to the last time at which a whole number of units has passed in `local` seconds.
pub record StartsAt (unit : ℕ) (local start : ℤ → ℤ) (time : ℤ) : Type 0 where
  pub aligned : (k : ℕ) × (local (start time) ≡ pos (k * unit))
  pub before : start time ≤ℤ time
  pub after : time +ℤ pos 1 ≤ℤ start time +ℤ pos unit
  pub again : start (start time) ≡ start time

pos_of_nonneg : (a : ℤ) → pos 0 ≤ℤ a → (n : ℕ) × (a ≡ pos n)
pos_of_nonneg (pos n) h = (n, refl)
pos_of_nonneg (negsuc n) h = absurd (omega arith)

day_floor :
    (time offset tz : ℤ) (n : ℕ)
    → time +ℤ tz -ℤ offset ≡ pos n
    → get_day_start_time time offset tz ≡ pos (n / 86400 * 86400) -ℤ (tz -ℤ offset)
unfolding get_day_start_time
day_floor time offset tz n e = rw e refl

day-StartsAt :
    (time offset tz : ℤ)
    → pos 0 ≤ℤ time +ℤ tz -ℤ offset
    → StartsAt 86400 (λ t. t +ℤ tz -ℤ offset) (λ t. get_day_start_time t offset tz) time
day-StartsAt time offset tz h =
    let (n, e) = pos_of_nonneg (time +ℤ tz -ℤ offset) h in
    let f = day_floor time offset tz n e in
    let m = n / 86400 * 86400 in
    let l : get_day_start_time time offset tz +ℤ tz -ℤ offset ≡ pos m =
      rw f (eq_of_parts _ _ (omega int_laws)) in
    record {
      aligned = (n / 86400, l);
      before = rw f (omega (int_laws, ap pos_part e, ap neg_part e));
      after = rw f (omega (int_laws, ap pos_part e, ap neg_part e));
      again =
          day_floor (get_day_start_time time offset tz) offset tz m l
          ∙ (ap (λ k. pos k -ℤ (tz -ℤ offset)) (omega arith) ∙ sym f);
    }

hour_floor :
    (time offset tz : ℤ) (n : ℕ)
    → time +ℤ tz -ℤ offset ≡ pos n
    → get_hour_start_time time offset tz ≡ pos (n / 3600 * 3600) -ℤ (tz -ℤ offset)
unfolding get_hour_start_time
hour_floor time offset tz n e = rw e refl

hour-StartsAt :
    (time offset tz : ℤ)
    → pos 0 ≤ℤ time +ℤ tz -ℤ offset
    → StartsAt 3600 (λ t. t +ℤ tz -ℤ offset) (λ t. get_hour_start_time t offset tz) time
hour-StartsAt time offset tz h =
    let (n, e) = pos_of_nonneg (time +ℤ tz -ℤ offset) h in
    let f = hour_floor time offset tz n e in
    let m = n / 3600 * 3600 in
    let l : get_hour_start_time time offset tz +ℤ tz -ℤ offset ≡ pos m =
      rw f (eq_of_parts _ _ (omega int_laws)) in
    record {
      aligned = (n / 3600, l);
      before = rw f (omega (int_laws, ap pos_part e, ap neg_part e));
      after = rw f (omega (int_laws, ap pos_part e, ap neg_part e));
      again =
          hour_floor (get_hour_start_time time offset tz) offset tz m l
          ∙ (ap (λ k. pos k -ℤ (tz -ℤ offset)) (omega arith) ∙ sym f);
    }

week_floor :
    (time offset tz : ℤ) (n : ℕ)
    → time +ℤ tz -ℤ offset +ℤ unix_weekday_offset ≡ pos n
    → get_week_start_time time offset tz
      ≡ pos (n / 604800 * 604800) -ℤ (tz -ℤ offset) -ℤ unix_weekday_offset
unfolding get_week_start_time
week_floor time offset tz n e = rw e refl

week-StartsAt :
    (time offset tz : ℤ)
    → pos 0 ≤ℤ time +ℤ tz -ℤ offset +ℤ unix_weekday_offset
    → StartsAt 604800
        (λ t. t +ℤ tz -ℤ offset +ℤ pos 259200)
        (λ t. get_week_start_time t offset tz)
        time
week-StartsAt time offset tz h =
    let (n, e) = pos_of_nonneg (time +ℤ tz -ℤ offset +ℤ unix_weekday_offset) h in
    let f = week_floor time offset tz n e in
    let m = n / 604800 * 604800 in
    let l : get_week_start_time time offset tz +ℤ tz -ℤ offset +ℤ unix_weekday_offset ≡ pos m =
      rw f (eq_of_parts _ _ (omega int_laws)) in
    record {
      aligned = (n / 604800, l);
      before = rw f (omega (int_laws, ap pos_part e, ap neg_part e));
      after = rw f (omega (int_laws, ap pos_part e, ap neg_part e));
      again =
          week_floor (get_week_start_time time offset tz) offset tz m l
          ∙ (ap (λ k. pos k -ℤ (tz -ℤ offset) -ℤ unix_weekday_offset) (omega arith) ∙ sym f);
    }

-- For a time that is not before 1970 in its time zone, less the offset: a whole number of hours of 3600
-- seconds has passed since 1970 at the start of its hour, of days of 86400 seconds at the start of its
-- day, and of weeks of 604800 seconds since the Monday three days before 1970 at the start of its week;
-- each is not after the time, less than one unit before it, and its own start.
pub start_times-StartsAt :
    (time offset tz : ℤ)
    → pos 0 ≤ℤ time +ℤ tz -ℤ offset
    → StartsAt 3600 (λ t. t +ℤ tz -ℤ offset) (λ t. get_hour_start_time t offset tz) time
      × StartsAt 86400 (λ t. t +ℤ tz -ℤ offset) (λ t. get_day_start_time t offset tz) time
      × StartsAt 604800
          (λ t. t +ℤ tz -ℤ offset +ℤ pos 259200)
          (λ t. get_week_start_time t offset tz)
          time
start_times-StartsAt time offset tz h = (
  hour-StartsAt time offset tz h,
  day-StartsAt time offset tz h,
  week-StartsAt time offset tz (omega (int_laws, h)),
)

leb-le : (m n : ℕ) → leb m n ≡ true → m ≤ n
leb-le m n h = ground arith

leb_self : (m : ℕ) → leb m m ≡ true
leb_self m = ground arith

leb-lt : (m n : ℕ) → n < m → leb m n ≡ false
leb-lt m n h = ground arith

eq_ℤ_self : (a : ℤ) → eq_ℤ a a ≡ true
eq_ℤ_self (pos n) = ==-self n
eq_ℤ_self (negsuc n) = ==-self n

eq_ℤ_ne : (a b : ℤ) → a ≢ b → eq_ℤ a b ≡ false
eq_ℤ_ne (pos m) (pos n) h = ==-ne m n (λ q. h (ap pos q))
eq_ℤ_ne (negsuc m) (negsuc n) h = ==-ne m n (λ q. h (ap negsuc q))
eq_ℤ_ne (pos m) (negsuc n) h = refl
eq_ℤ_ne (negsuc m) (pos n) h = refl

-- With the two local times `b` and `c` in seconds from 1970, the earlier one first and less than 2 ^ 32
-- days after 1970: GetPassedDay is the number of midnights between them, IsSameDay holds exactly if it
-- is 0, and IsPassDay exactly if it is not.
pub get_passed_day-days :
    (begin cur offset tz : ℤ) (b c : ℕ)
    → begin +ℤ tz -ℤ offset ≡ pos b
    → cur +ℤ tz -ℤ offset ≡ pos c
    → b ≤ c
    → c < 2 ^ 32 * 86400
    → let days = get_passed_day begin cur offset tz in
      (days + b / 86400 ≡ c / 86400)
      × (is_same_day cur begin offset tz ≡ (days == 0))
      × (is_pass_day cur begin offset tz ≡ not (days == 0))
unfolding get_passed_day is_same_day is_pass_day
get_passed_day-days begin cur offset tz b c e f le lt =
    let days = c / 86400 - b / 86400 in
    let d = day_floor begin offset tz b e in
    let g = day_floor cur offset tz c f in
    let diff : get_day_start_time cur offset tz -ℤ get_day_start_time begin offset tz
        ≡ pos (days * 86400) =
      rw (d, g) (eq_of_parts _ _ (omega int_laws)) in
    let later = get_day_start_time cur offset tz in
    let sooner = get_day_start_time begin offset tz in
    let same : days ≡ 0 → get_day_start_time cur offset tz ≡ get_day_start_time begin offset tz =
      λ z. eq_of_parts _ _ (omega (int_laws, ap pos_part diff, ap neg_part diff)) in
    let passed : get_passed_day begin cur offset tz ≡ days = elim (Bool-cases (leb_ℤ cur begin)) [
      | inl k ↦ rw k (
          omega (
            int_laws,
            leb-le (pos_part cur + neg_part begin) (pos_part begin + neg_part cur) k,
            ap pos_part e,
            ap neg_part e,
            ap pos_part f,
            ap neg_part f,
          ))
      | inr k ↦ rw (k, diff) (omega arith)
    ] in
    rw passed (
      omega arith,
      elim (ℕ-cases days 0) [
        | inl z ↦ rw (same z, z) (eq_ℤ_self (get_day_start_time begin offset tz))
        | inr n ↦ rw (==-ne days 0 n) (
            eq_ℤ_ne later sooner (λ q.
              n (
                omega
                  (int_laws, ap pos_part diff, ap neg_part diff, ap pos_part q, ap neg_part q))))
      ],
      elim (ℕ-cases days 0) [
        | inl z ↦ rw (same z, z) (ap not (leb_self _))
        | inr n ↦ rw (==-ne days 0 n) (
            ap not (
              leb-lt (pos_part later + neg_part sooner) (pos_part sooner + neg_part later)
                (omega (int_laws, ap pos_part diff, ap neg_part diff))))
      ],
    )
