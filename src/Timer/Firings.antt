-- ===== src/Timer/Firings.antt =====
-- Only OnTimeout notes a firing.
use coroutine_transaction.Base.{
  ℕ, ◌≡◌, refl, ap, ◌∙◌, inl, inr, Bool, true, false, ◌||◌, some, List, [], ◌∷◌, arith,
  if◌then◌else◌, Bool-cases, update_self, Option-cases, is_pos, pred_ℤ,
}
use coroutine_transaction.Timer.{
  Timer, TimerMgr, WheelType, push, Firing, reg, reg_sec, reg_hour, reg_day, unregister_timer,
  set_timer,
}
use coroutine_transaction.Timer.Register.{
  delete_timer, Call, run_calls, run_call, registers, destroys, register_timer, destroy_timer,
  cal_expire, start_clock, new_timer,
}
use coroutine_transaction.Timer.Fire.{set_in_proc, settle, on_timeout, run_timer}

pub push-firings : (w : WheelType) (x a : ℕ) (m : TimerMgr) → (push w x a m).firings ≡ m.firings
unfolding push
push-firings w x a m = ground arith

pub unregister_timer-firings : (a : ℕ) (m : TimerMgr) → (unregister_timer a m).firings ≡ m.firings
unfolding unregister_timer
unregister_timer-firings a m = ground arith

pub reg-firings : (a t : ℕ) (m : TimerMgr) → (reg a t m).firings ≡ m.firings
unfolding reg reg_sec reg_hour reg_day push
reg-firings a t m = ground arith

pub delete_timer-firings : (a : ℕ) (m : TimerMgr) → (delete_timer a m).firings ≡ m.firings
unfolding delete_timer
delete_timer-firings a m = unregister_timer-firings a m

pub run_call-firings : (c : Call) (m : TimerMgr) → (run_call c m).firings ≡ m.firings
unfolding run_call register_timer destroy_timer
run_call-firings (registers now id q) m = ground (
  arith,
  reg-firings id m.lasttick (set_timer id (new_timer now id q) m),
  reg-firings id now (start_clock now (set_timer id (new_timer now id q) m)),
)
run_call-firings (destroys id) m = ground (arith, delete_timer-firings id m)

pub run_calls-firings : (cs : List Call) (m : TimerMgr) → (run_calls cs m).firings ≡ m.firings
unfolding run_calls
run_calls-firings [] m = refl
run_calls-firings (c ∷ cs) m = run_calls-firings cs (run_call c m) ∙ run_call-firings c m

pub settle-firings : (t a : ℕ) (m : TimerMgr) → (settle t a m).firings ≡ m.firings
unfolding settle
settle-firings t a m = elim (Option-cases (m.timers a)) [
  | inl e ↦ rw (e, settle)
  | inr (s, e) ↦
      let v = if s.forever then s.repeats else pred_ℤ s.repeats in
      elim (Bool-cases (is_pos v || s.forever)) [
        | inl b ↦
            rw (e, settle, b)
              (reg-firings a t
                (set_timer a (record s { repeats = v; expire = cal_expire t s.interval }) m))
        | inr b ↦
            rw (e, settle, b) (delete_timer-firings a (set_timer a (record s { repeats = v }) m))
      ]
]

pub set_in_proc-firings :
    (a : ℕ) (b : Bool) (m : TimerMgr) → (set_in_proc a b m).firings ≡ m.firings
set_in_proc-firings a b m = ground arith

abbrev pub firing : ℕ → ℕ → ℕ → Firing
firing t a e = record { tick = t; id = a; due = e }

module _ (script : ℕ → ℕ → List Call) (t a : ℕ) where
  pub on_timeout-firings :
      (m : TimerMgr) (s : Timer)
      → m.timers a ≡ some s
      → (on_timeout script t a m).firings ≡ firing t a s.expire ∷ m.firings
  unfolding on_timeout
  on_timeout-firings m s e = elim (Bool-cases (m.timer_funcs s.timer_func_id)) [
    | inl b ↦ rw (e, on_timeout, b) (run_calls-firings (script t a) _)
    | inr b ↦ rw (e, on_timeout, b)
  ]

  -- Each run notes the tick and the expiry, once.
  pub run_timer-firings :
      (m : TimerMgr) (s : Timer)
      → m.timers a ≡ some s
      → (run_timer script t a m).firings ≡ firing t a s.expire ∷ m.firings
  unfolding run_timer
  run_timer-firings m s e =
      let m1 = set_in_proc a true m in
      let m2 = on_timeout script t a m1 in
      let m3 = set_in_proc a false m2 in
      settle-firings t a (unregister_timer a m3)
      ∙ unregister_timer-firings a m3
      ∙ set_in_proc-firings a false m2
      ∙ on_timeout-firings m1 (record s { is_in_proc = true }) entered
      ∙ ap (◌∷◌ (firing t a s.expire)) (set_in_proc-firings a true m)
    where
      entered : (set_in_proc a true m).timers a ≡ some (record s { is_in_proc = true })
      entered = rw (e, set_in_proc) (update_self m.timers a _)
