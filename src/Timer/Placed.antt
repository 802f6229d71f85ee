-- ===== src/Timer/Placed.antt =====
-- Where a timer stands when its wheel is due to reach it in time.
use coroutine_transaction.Base.{
  ℕ, suc, ◌+◌, ◌-◌, ◌*◌, ◌/◌, ◌%◌, ◌^◌, ◌≤◌, ◌<◌, ◌≡◌, refl, sym, ap, ◌∙◌, inl, inr, true, some,
  arith, leb, ℤ, pos, negsuc, Bool-cases,
}
use mathlib.Core.Path.{subst}
use coroutine_transaction.Timer.{
  Timer, TimerMgr, WheelType, sec, hour, day, push, slot_after, add_u32, reg, reg_sec, reg_hour,
  reg_day, cal_remain, u32_mod,
}

-- `s` is one more than the position of the first wheel, `h` and `d` are those of the others.
-- `to_hour` and `to_day` are the milliseconds from `tick` until the other wheels move on.
pub record Phase : Type 0 where
  pub tick : ℕ
  pub s : ℕ
  pub h : ℕ
  pub d : ℕ
  pub to_hour : ℕ
  pub to_day : ℕ

-- A slot of the first wheel is reached at the expiry, to the millisecond; one of the others `j`
-- moves ahead, and before the expiry.
abbrev pub Placed : Phase → WheelType → ℕ → ℕ → Type 0
Placed p sec x e = (p.tick < e) × (e ≤ p.tick + 1000) × ((p.s + (e - p.tick) + 999) % 1000 ≡ x)
Placed p hour x e =
    (j : ℕ) × (1 ≤ j)
    × (j ≤ 3600)
    × (x ≡ (p.h + j) % 3600)
    × (p.tick + p.to_hour + 1000 * j < e + 1000)
Placed p day x e =
    (j : ℕ) × (1 ≤ j)
    × (j ≤ 24)
    × (x ≡ (p.d + j) % 24)
    × (p.tick + p.to_day + 3600000 * j < e + 3600000)

-- The first wheel starts at position -1.
abbrev pub At : ℤ → ℕ → Type 0
At (pos c) s = s ≡ suc c
At (negsuc n) s = (n ≡ 0) × (s ≡ 0)

pub record Synced (p : Phase) (m : TimerMgr) : Type 0 where
  pub ticking : m.ticking ≡ true
  pub at_tick : m.lasttick ≡ p.tick
  pub at_sec : At (m.cur sec) p.s
  pub at_hour : m.cur hour ≡ pos p.h
  pub at_day : m.cur day ≡ pos p.d
  pub s_le : p.s ≤ 1000
  pub h_lt : p.h < 3600
  pub d_lt : p.d < 24
  pub to_hour_le : p.to_hour ≤ 1000
  pub to_day_le : p.to_day ≤ 3600000

-- The manager's clock and wheels are untouched.
pub Synced-of :
    {p : Phase} {m m' : TimerMgr}
    → m'.ticking ≡ m.ticking
    → m'.lasttick ≡ m.lasttick
    → m'.cur ≡ m.cur
    → Synced p m
    → Synced p m'
Synced-of {p} a b c y = record {
  ticking = a ∙ y.ticking;
  at_tick = b ∙ y.at_tick;
  at_sec = subst (λ (f : WheelType → ℤ). At (f sec) p.s) (sym c) y.at_sec;
  at_hour = ap (λ (f : WheelType → ℤ). f hour) c ∙ y.at_hour;
  at_day = ap (λ (f : WheelType → ℤ). f day) c ∙ y.at_day;
  s_le = y.s_le;
  h_lt = y.h_lt;
  d_lt = y.d_lt;
  to_hour_le = y.to_hour_le;
  to_day_le = y.to_day_le;
}

-- Both times lie between two multiples of 2 ^ 32, where the cut to 32 bits does no harm.
pub cal_remain-sub :
    (c tick e : ℕ)
    → c * u32_mod ≤ tick
    → tick ≤ e
    → e < c * u32_mod + u32_mod
    → cal_remain tick e ≡ e - tick
unfolding cal_remain
cal_remain-sub c tick e a b g = ground arith

-- When a multiple of 2 ^ 32 lies after `tick` and up to `e`, and they are less than 2 ^ 32 apart,
-- cal_remain is one millisecond short.
pub cal_remain-crossing :
    (c tick e : ℕ)
    → tick < c * u32_mod
    → c * u32_mod ≤ e
    → e < tick + u32_mod
    → cal_remain tick e + 1 ≡ e - tick
unfolding cal_remain
cal_remain-crossing c tick e a b g = ground arith

abbrev sec_slot : ℤ → ℕ → ℕ
sec_slot c r = add_u32 c r % 1000

sec_slot_lem :
    (c : ℤ) (s r : ℕ) → At c s → s ≤ 1000 → 1 ≤ r → r ≤ 1000 → (s + r + 999) % 1000 ≡ sec_slot c r
sec_slot_lem (pos c) s r a b g k = omega arith
sec_slot_lem (negsuc n) s r a b g k = omega arith

-- The level and the slot that Reg chooses.
abbrev pub Chosen : Phase → TimerMgr → ℕ → TimerMgr → ℕ → Type 0
Chosen p m id m' e = (w : WheelType) × (x : ℕ) × (m' ≡ push w x id m) × Placed p w x e

module _ (p : Phase) (m : TimerMgr) (id : ℕ) (y : Synced p m) where
  reg_day-Chosen :
      (e q : ℕ)
      → 3600 < q
      → q < 2 ^ 32
      → 1000 * q + p.tick + 1 ≤ e
      → Chosen p m id (reg_day id ((q - 1) / 3600) m) e
  unfolding reg_day
  reg_day-Chosen e q a b g = (
    day,
    slot_after day ((q - 1) / 3600) m,
    refl,
    (
      ((q - 1) / 3600 + 23) % 24 + 1,
      omega arith,
      omega arith,
      rw y.at_day (omega (arith, y.d_lt)),
      omega (arith, y.to_day_le),
    ),
  )

  reg_hour-Chosen :
      (e q : ℕ) → 1 ≤ q → q < 2 ^ 32 → 1000 * q + p.tick + 1 ≤ e → Chosen p m id (reg_hour id q m) e
  unfolding reg_hour
  reg_hour-Chosen e q a b g = elim (Bool-cases (leb q 3600)) [
    | inl le ↦ rw (le) (
      hour,
      slot_after hour q m,
      refl,
      (q, a, ground arith, rw y.at_hour (ground (arith, y.h_lt)), omega (arith, y.to_hour_le)),
    )
    | inr gt ↦ rw (gt) (reg_day-Chosen e q (ground arith) b g)
  ]

  reg_sec-Chosen :
      (e r : ℕ) → 1 ≤ r → r < 2 ^ 32 → r + p.tick ≡ e → Chosen p m id (reg_sec id r m) e
  unfolding reg_sec
  reg_sec-Chosen e r a b g = elim (Bool-cases (leb r 1000)) [
    | inl le ↦ rw (le) (
      sec,
      slot_after sec r m,
      refl,
      (
        omega arith,
        ground arith,
        let q : e - p.tick ≡ r = omega arith in
            rw q (sec_slot_lem (m.cur sec) p.s r y.at_sec y.s_le a (ground arith)),
      ),
    )
    | inr gt ↦
        rw (gt) (reg_hour-Chosen e ((r - 1) / 1000) (ground arith) (omega arith) (ground arith))
  ]

-- Reg links a timer that expires after `tick` in a place that the wheels reach in time.
pub reg-Chosen :
    (p : Phase) (m : TimerMgr) (id c : ℕ) (t : Timer)
    → Synced p m
    → m.timers id ≡ some t
    → c * u32_mod ≤ p.tick
    → p.tick < t.expire
    → t.expire < c * u32_mod + u32_mod
    → Chosen p m id (reg id p.tick m) t.expire
unfolding reg
reg-Chosen p m id c t y f a b g =
    rw (f, reg, cal_remain-sub c p.tick t.expire a (omega arith) g)
      (reg_sec-Chosen p m id y t.expire (t.expire - p.tick) (omega arith) (omega arith)
        (omega arith))
