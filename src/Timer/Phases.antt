-- ===== src/Timer/Phases.antt =====
-- The phases through which the wheels turn, and what a turn leaves in its place.
use coroutine_transaction.Base.{
  ℕ, suc, ◌+◌, ◌-◌, ◌*◌, ◌%◌, ◌≤◌, ◌<◌, ◌≡◌, refl, List, arith, ◌==◌, if◌then◌else◌, ℤ, length,
  drop-length, All,
}
use coroutine_transaction.Timer.{TimerMgr, WheelType, sec, hour, day}
use coroutine_transaction.Timer.Register.{Call}
use coroutine_transaction.Timer.Fire.{cur_slot, fire_list}
use coroutine_transaction.Timer.Placed.{Phase, Synced}
use coroutine_transaction.Timer.Linked.{Place, Linked, Listed-of}
use coroutine_transaction.Timer.Loop.{position, InTime, Looping, Listed-map, Running-done, Window}
use coroutine_transaction.Timer.Destroyed.{CallOk}
use coroutine_transaction.Timer.Slots.{Timely, Fresh, fire_slot-Running}

-- The clock and the positions move; the lists and the table stay.
abbrev pub turned : (WheelType → ℤ) → ℕ → TimerMgr → TimerMgr
turned cur t m = record m { cur = cur; lasttick = t }

pub Linked-turned :
    {P Q : Place} {k : ℕ} {m : TimerMgr} (cur : WheelType → ℤ) (t : ℕ)
    → ((u : WheelType) (x e : ℕ) → P u x e → Q u x e)
    → Linked P k m
    → Linked Q k (turned cur t m)
Linked-turned cur t f i = record {
  listed = λ u x id h. Listed-of (Listed-map (f u x) (i.listed u x id h)) refl;
  pending = i.pending;
  free = i.free;
  no_zero = i.no_zero;
  paced = i.paced;
}

-- The loop over the slot that a wheel has just reached.
module _ (script : ℕ → ℕ → List Call) (w : WheelType) {p : Phase} {c : ℕ} {m : TimerMgr}
    (win : Window c p) (fr : Fresh w p)
    (ok : (i : ℕ) → All (CallOk c p.tick) (script p.tick i)) where
  pub fire_list-InTime :
      Synced p m
      → cur_slot w m ≡ position p w
      → Linked (Looping w p c) 0 m
      → All Timely m.firings
      → Synced p (fire_list script w p.tick m)
        × Linked (InTime p c) 0 (fire_list script w p.tick m)
        × All Timely (fire_list script w p.tick m).firings
  unfolding fire_list
  fire_list-InTime y at i fs = rw at (
      let (r, fs') =
        fire_slot-Running script (length (m.tlist w (position p w))) w win fr ok
          (record {
            inv = i;
            synced = y;
            rest = λ j h. absurd (drop-length j (m.tlist w (position p w)) h);
          })
          fs in
      (r.synced, Running-done r, fs'))

-- Between two ticks the next move of the second wheel is `1000 - s % 1000` ahead, and the third
-- moves when the second reaches its last slot.
abbrev pub steady : ℕ → ℕ → ℕ → ℕ → Phase
steady t s h d = record {
  tick = t;
  s = s;
  h = h;
  d = d;
  to_hour = 1000 - s % 1000;
  to_day = 1000 - s % 1000 + 1000 * ((7198 - h) % 3600);
}

-- The first wheel has just moved to `s`.
abbrev pub moved_sec : ℕ → ℕ → ℕ → ℕ → Phase
moved_sec t s h d = record {
  tick = t;
  s = s;
  h = h;
  d = d;
  to_hour = 1000 - s;
  to_day = 1000 - s + 1000 * ((7198 - h) % 3600);
}

abbrev pub next_s : ℕ → ℕ
next_s s = if s == 1000 then 1 else suc s

pub sec_turn :
    (t s h d c : ℕ)
    → s ≤ 1000
    → (u : WheelType) (x e : ℕ) → InTime (steady t s h d) c u x e
    → Looping sec (moved_sec (suc t) (next_s s) h d) c u x e
sec_turn t s h d c b sec x e (g, l) = (ground arith, l)
sec_turn t s h d c b hour x e ((j, lo, hi, q, g), l) = ((j, lo, hi, q, ground arith), l)
sec_turn t s h d c b day x e ((j, lo, hi, q, g), l) = ((j, lo, hi, q, ground arith), l)

-- The second wheel moves when the first has reached its last slot.
abbrev pub next_h : ℕ → ℕ
next_h h = if suc h == 3600 then 0 else suc h

abbrev pub moved_hour : ℕ → ℕ → ℕ → Phase
moved_hour t h d = record {
  tick = t;
  s = 1000;
  h = next_h h;
  d = d;
  to_hour = 1000;
  to_day = 1000 * ((7198 - h) % 3600);
}

pub hour_turn :
    (t h d c : ℕ)
    → h < 3600
    → (u : WheelType) (x e : ℕ) → InTime (moved_sec t 1000 h d) c u x e
    → Looping hour (moved_hour t h d) c u x e
hour_turn t h d c b sec x e (g, l) = (g, l)
hour_turn t h d c b hour x e ((j, lo, hi, q, g), l) =
    ((j - 1, omega arith, (rw q (ground arith)), omega arith), l)
hour_turn t h d c b day x e ((j, lo, hi, q, g), l) = ((j, lo, hi, q, omega arith), l)

-- The third wheel moves when the second has reached its last slot.
abbrev pub next_d : ℕ → ℕ
next_d d = if suc d == 24 then 0 else suc d

abbrev pub moved_day : ℕ → ℕ → Phase
moved_day t d = record {
  tick = t;
  s = 1000;
  h = 3599;
  d = next_d d;
  to_hour = 1000;
  to_day = 3600000;
}

pub day_turn :
    (t d c : ℕ)
    → d < 24
    → (u : WheelType) (x e : ℕ) → InTime (moved_hour t 3598 d) c u x e
    → Looping day (moved_day t d) c u x e
day_turn t d c b sec x e (g, l) = (g, l)
day_turn t d c b hour x e (g, l) = (g, l)
day_turn t d c b day x e ((j, lo, hi, q, g), l) =
    ((j - 1, omega arith, (rw q (ground arith)), omega arith), l)
