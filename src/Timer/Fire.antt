-- ===== src/Timer/Fire.antt =====
-- TimerMgr::Fire and TimerMgr::Proc: src/timer/svr_timer.cpp.
use coroutine_transaction.Base.{
  ℕ, suc, zero, ◌-◌, Bool, true, false, not, ◌||◌, none, some, List, ◌∷◌, ℤ, pos, negsuc, is_pos,
  to_ℕ, pred_ℤ, ltb, ◌==◌, if◌then◌else◌, length,
}
use coroutine_transaction.Timer.{
  TimerMgr, WheelType, sec, hour, day, wheel_size, same_wheel, set_timer, reg, pop,
  unregister_timer,
}
use coroutine_transaction.Timer.Register.{Call, run_calls, delete_timer, cal_expire}

abbrev pub set_in_proc : ℕ → Bool → TimerMgr → TimerMgr
set_in_proc id b m = elim (m.timers id) [
  | none ↦ m
  | some t ↦ set_timer id (record t { is_in_proc = b }) m
]

-- `++(wheel->cur)`, and back to 0 at the wheel's size.
abbrev pub next_cur : WheelType → ℤ → ℤ
next_cur w (pos c) = if suc c == wheel_size w then pos 0 else pos (suc c)
next_cur w (negsuc zero) = pos 0
next_cur w (negsuc (suc n)) = negsuc n

unfoldable pub advance : WheelType → TimerMgr → TimerMgr
advance w m = record m { cur = λ u. if same_wheel u w then next_cur w (m.cur w) else m.cur u }

-- What Fire does with a timer after its callback: repeat it, or destroy it.
unfoldable pub settle : ℕ → ℕ → TimerMgr → TimerMgr
unfolding reg delete_timer
settle tick id m = elim (m.timers id) [
  | none ↦ m
  | some t ↦
      let r = if t.forever then t.repeats else pred_ℤ t.repeats in
      if is_pos r || t.forever
      then reg id tick
          (set_timer id (record t { repeats = r; expire = cal_expire tick t.interval }) m)
      else delete_timer id (set_timer id (record t { repeats = r }) m)
]

abbrev pub cur_slot : WheelType → TimerMgr → ℕ
cur_slot w m = to_ℕ (m.cur w)

module _ (script : ℕ → ℕ → List Call) where
  -- Timer::OnTimeout; a function id with no callback changes nothing.
  unfoldable pub on_timeout : ℕ → ℕ → TimerMgr → TimerMgr
  unfolding run_calls
  on_timeout tick id m = elim (m.timers id) [
    | none ↦ m
    | some t ↦
        let m' = record m {
          firings = record { tick = tick; id = id; due = t.expire } ∷ m.firings;
        } in
        if m.timer_funcs t.timer_func_id then run_calls (script tick id) m' else m'
  ]

  -- The part of TimerMgr::Fire for a timer of the first wheel.
  unfoldable pub run_timer : ℕ → ℕ → TimerMgr → TimerMgr
  unfolding on_timeout unregister_timer settle
  run_timer tick id m =
      settle tick id
        (unregister_timer id (set_in_proc id false (on_timeout tick id (set_in_proc id true m))))

  -- One round of the `for` loop of TimerMgr::Fire.
  unfoldable pub fire_one : WheelType → ℕ → ℕ → TimerMgr → TimerMgr
  unfolding pop run_timer reg
  fire_one w x tick m = elim (pop w x m) [
    | none ↦ m
    | some (id, m') ↦ if same_wheel w sec then run_timer tick id m' else reg id tick m'
  ]

  -- The loop runs as often as the list was long at its start.
  unfoldable pub fire_slot : WheelType → ℕ → ℕ → ℕ → TimerMgr → TimerMgr
  fire_slot w x tick zero m = m
  fire_slot w x tick (suc n) m = fire_slot w x tick n (fire_one w x tick m)

  unfoldable pub fire_list : WheelType → ℕ → TimerMgr → TimerMgr
  unfolding fire_slot
  fire_list w tick m = fire_slot w (cur_slot w m) tick (length (m.tlist w (cur_slot w m))) m

  -- TimerMgr::Fire on each wheel: the last slot of a wheel moves the next one on.
  unfoldable pub fire_day : ℕ → TimerMgr → TimerMgr
  unfolding advance fire_list
  fire_day tick m = fire_list day tick (advance day m)

  unfoldable pub fire_hour : ℕ → TimerMgr → TimerMgr
  unfolding advance fire_list fire_day
  fire_hour tick m =
      let m' = fire_list hour tick (advance hour m) in
      if suc (cur_slot hour m') == wheel_size hour then fire_day tick m' else m'

  unfoldable pub fire : ℕ → TimerMgr → TimerMgr
  unfolding advance fire_list fire_hour
  fire tick m =
      let m' = fire_list sec tick (advance sec m) in
      if suc (cur_slot sec m') == wheel_size sec then fire_hour tick m' else m'

  -- One round of the `while` loop of TimerMgr::Proc.
  unfoldable pub tick_once : TimerMgr → TimerMgr
  unfolding fire
  tick_once m = let t = suc m.lasttick in fire t (record m { lasttick = t })

  unfoldable pub ticks : ℕ → TimerMgr → TimerMgr
  unfolding tick_once
  ticks zero m = m
  ticks (suc n) m = ticks n (tick_once m)

  -- TimerMgr::Proc at the clock reading `now`; the loop runs `now - lasttick_` times.
  unfoldable pub proc : ℕ → TimerMgr → TimerMgr
  unfolding ticks
  proc now m =
      if not m.ticking
      then m
      else if ltb now m.lasttick
      then record m { lasttick = now }
      else ticks (now - m.lasttick) m
