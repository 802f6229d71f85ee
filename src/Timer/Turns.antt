-- ===== src/Timer/Turns.antt =====
-- The wheels turn: TimerMgr::Fire on each of them, and one tick of TimerMgr::Proc.
use coroutine_transaction.Base.{
  ℕ, zero, suc, ◌+◌, ◌*◌, ◌%◌, ◌≤◌, ◌<◌, ◌≡◌, refl, ap, ◌≢◌, inl, inr, List, arith, ◌==◌,
  if◌then◌else◌, ℤ, pos, negsuc, ℕ-cases, ==-ne, All, to_ℕ,
}
use mathlib.Core.Path.{subst}
use coroutine_transaction.Timer.{
  TimerMgr, WheelType, sec, hour, day, wheel_size, u32_mod, max_timeout,
}
use coroutine_transaction.Timer.Register.{Call}
use coroutine_transaction.Timer.Fire.{advance, next_cur, cur_slot, fire_list, fire_day, fire_hour}
use coroutine_transaction.Timer.Placed.{Phase, Synced, At}
use coroutine_transaction.Timer.Linked.{Linked}
use coroutine_transaction.Timer.Loop.{position, InTime, Looping, Window, limit}
use coroutine_transaction.Timer.Destroyed.{CallOk}
use coroutine_transaction.Timer.Slots.{Timely, Fresh}
use coroutine_transaction.Timer.Phases.{
  Linked-turned, fire_list-InTime, steady, moved_sec, next_s, next_h, moved_hour, hour_turn, next_d,
  moved_day, day_turn,
}

-- What holds of the manager in a phase.
pub record InPhase (p : Phase) (c : ℕ) (m : TimerMgr) : Type 0 where
  pub synced : Synced p m
  pub linked : Linked (InTime p c) 0 m
  pub timely : All Timely m.firings

-- A wheel moves on, and the slot that it reaches is worked off.
module _ (script : ℕ → ℕ → List Call) (w : WheelType) (p q : Phase) {c : ℕ} {m : TimerMgr}
    (win : Window c q) (fr : Fresh w q)
    (ok : (i : ℕ) → All (CallOk c q.tick) (script q.tick i)) where
  pub turn-InPhase :
      ((u : WheelType) (x e : ℕ) → InTime p c u x e → Looping w q c u x e)
      → Linked (InTime p c) 0 m
      → All Timely m.firings
      → Synced q (advance w m)
      → cur_slot w (advance w m) ≡ position q w
      → InPhase q c (fire_list script w q.tick (advance w m))
  unfolding advance
  turn-InPhase f i fs y at =
      let (a, b, d) =
        fire_list-InTime script w win fr ok y at (Linked-turned _ m.lasttick f i) fs in
      record { synced = a; linked = b; timely = d }

pub next_cur-sec : (v : ℤ) (s : ℕ) → At v s → s ≤ 1000 → At (next_cur sec v) (next_s s)
next_cur-sec (pos n) s a b = ground arith
next_cur-sec (negsuc zero) s a b = ground arith
next_cur-sec (negsuc (suc n)) s a b = absurd (omega arith)

pub At-to_ℕ :
    (v : ℤ) (s : ℕ) → At v s → 1 ≤ s → s ≤ 1000 → (to_ℕ v ≡ (s + 999) % 1000) × (suc (to_ℕ v) ≡ s)
At-to_ℕ (pos n) s a b g = (omega arith, omega arith)
At-to_ℕ (negsuc n) s a b g = absurd (omega arith)

module _ (script : ℕ → ℕ → List Call) {t d c : ℕ} {m : TimerMgr} (win : Window c (moved_day t d))
    (ok : (i : ℕ) → All (CallOk c t) (script t i)) (b : d < 24) where
  fire_day-InPhase :
      InPhase (moved_hour t 3598 d) c m
      → InPhase (steady t 1000 3599 (next_d d)) c (fire_day script t m)
  unfolding fire_day advance
  fire_day-InPhase i =
      turn-InPhase script day (moved_hour t 3598 d) (moved_day t d) win refl ok (day_turn t d c b)
        i.linked i.timely
        (record {
          ticking = i.synced.ticking;
          at_tick = i.synced.at_tick;
          at_sec = i.synced.at_sec;
          at_hour = i.synced.at_hour;
          at_day = rw (i.synced.at_day) (ground arith);
          s_le = omega arith;
          h_lt = omega arith;
          d_lt = ground arith;
          to_hour_le = omega arith;
          to_day_le = omega arith;
        })
        (rw (i.synced.at_day) (ground arith))

-- Between two ticks, at the tick `t`.
abbrev pub Ready : ℕ → ℕ → TimerMgr → Type 0
Ready c t m = (s : ℕ) × (h : ℕ) × (d : ℕ) × InPhase (steady t s h d) c m

-- A move of the second wheel that does not reach its last slot.
hour_steady :
    (t h d : ℕ) → h < 3600 → next_h h ≢ 3599 → moved_hour t h d ≡ steady t 1000 (next_h h) d
hour_steady t h d a b = ground arith

hour_last : (t h d : ℕ) → h < 3600 → next_h h ≡ 3599 → moved_hour t h d ≡ moved_hour t 3598 d
hour_last t h d a b = ap (λ (k : ℕ). moved_hour t k d) {y = 3598} (ground arith)

module _ (script : ℕ → ℕ → List Call) {t c : ℕ} (small : c < u32_mod) (above : c * u32_mod ≤ t)
    (room : t + max_timeout < limit c) (ok : (i : ℕ) → All (CallOk c t) (script t i)) where
  window : (p : Phase) → p.tick ≡ t → Window c p
  window p e = record { small = small; above = rw e above; room = rw e room }

  fire_hour_list :
      (h d : ℕ) {m : TimerMgr}
      → InPhase (moved_sec t 1000 h d) c m
      → InPhase (moved_hour t h d) c (fire_list script hour t (advance hour m))
  unfolding advance
  fire_hour_list h d i =
      turn-InPhase script hour (moved_sec t 1000 h d) (moved_hour t h d)
        (window (moved_hour t h d) refl) refl ok (hour_turn t h d c i.synced.h_lt) i.linked i.timely
        (record {
          ticking = i.synced.ticking;
          at_tick = i.synced.at_tick;
          at_sec = i.synced.at_sec;
          at_hour = rw (i.synced.at_hour) (ground arith);
          at_day = i.synced.at_day;
          s_le = omega arith;
          h_lt = ground (arith, i.synced.h_lt);
          d_lt = i.synced.d_lt;
          to_hour_le = omega arith;
          to_day_le = omega arith;
        })
        (rw (i.synced.at_hour) (ground (arith, i.synced.h_lt)))

  hour_end :
      (h d : ℕ) {m : TimerMgr}
      → h < 3600
      → InPhase (moved_hour t h d) c m
      → Ready c t (if suc (cur_slot hour m) == wheel_size hour then fire_day script t m else m)
  hour_end h d {m} b i = elim (ℕ-cases (next_h h) 3599) [
    | inl e ↦
        rw (i.synced.at_hour, e)
          (
            1000,
            3599,
            next_d d,
            fire_day-InPhase script (window (moved_day t d) refl) ok i.synced.d_lt
                (subst (λ p. InPhase p c m) (hour_last t h d b e) i),
          )
    | inr e ↦
        rw (i.synced.at_hour, ==-ne (suc (next_h h)) 3600 (ground arith))
          (1000, next_h h, d, subst (λ p. InPhase p c m) (hour_steady t h d b e) i)
  ]

  pub fire_hour-Ready :
      (h d : ℕ) {m : TimerMgr}
      → InPhase (moved_sec t 1000 h d) c m
      → Ready c t (fire_hour script t m)
  unfolding fire_hour
  fire_hour-Ready h d i = hour_end h d i.synced.h_lt (fire_hour_list h d i)
