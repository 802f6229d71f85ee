-- ===== src/Timer/Stays.antt =====
-- The calls of a callback and the handling of another timer leave a timer with its expiry.
use coroutine_transaction.Base.{
  ℕ, ◌≡◌, ◌≢◌, inl, inr, refl, sym, ap, ◌∙◌, Bool, true, false, not, ◌||◌, none, some, List, [],
  ◌∷◌, arith, if◌then◌else◌, Bool-cases, update_self, update-ne, Option-cases, ℕ-cases, is_pos,
  pred_ℤ, All, ◌==◌, ==-ne, leb, pos,
}
use coroutine_transaction.Timer.{
  Timer, TimerMgr, WheelType, sec, hour, day, push, reg, reg_sec, reg_hour, reg_day,
  unregister_timer, set_timer, wheel_size,
}
use coroutine_transaction.Timer.Register.{
  delete_timer, Call, run_calls, run_call, registers, destroys, register_timer, destroy_timer,
  cal_expire, start_clock, new_timer, Request, is_accepted,
}
use coroutine_transaction.Timer.Fire.{set_in_proc, settle}

-- The call does not destroy the timer.
abbrev pub Spares : ℕ → Call → Type 0
Spares a (registers now id q) = Unit
Spares a (destroys id) = id ≢ a

-- The timer is still there, with the same expiry.
abbrev pub Stays : ℕ → TimerMgr → TimerMgr → Type 0
Stays a m m' =
    (s : Timer)
    → m.timers a ≡ some s
    → (s' : Timer) × (m'.timers a ≡ some s') × (s'.expire ≡ s.expire)

module _ (a : ℕ) where
  pub set_timer-Stays :
      (id : ℕ) (t t' : Timer) (m : TimerMgr)
      → m.timers id ≡ some t
      → t'.expire ≡ t.expire
      → Stays a m (set_timer id t' m)
  set_timer-Stays id t t' m e k s f = elim (ℕ-cases a id) [
    | inl q ↦
        let w : t ≡ s = cc (e, f, q) in
        (t', rw q (update_self m.timers id (some t')), k ∙ ap (λ (u : Timer). u.expire) w)
    | inr n ↦ (s, update-ne m.timers id _ a n ∙ f, refl)
  ]

  pub push-Stays : (w : WheelType) (x id : ℕ) (m : TimerMgr) → Stays a m (push w x id m)
  unfolding push
  push-Stays w x id m s f = elim (Option-cases (m.timers id)) [
    | inl e ↦ rw (e, push) (s, f, refl)
    | inr (t, e) ↦ elim (Option-cases t.owner) [
      | inl o ↦
          rw (e, push, o) (set_timer-Stays id t (record t { owner = some (w, x) }) m e refl s f)
      | inr (_, o) ↦ rw (e, push, o) (s, f, refl)
    ]
  ]

  pub unregister_timer-Stays : (id : ℕ) (m : TimerMgr) → Stays a m (unregister_timer id m)
  unfolding unregister_timer
  unregister_timer-Stays id m s f = elim (Option-cases (m.timers id)) [
    | inl e ↦ rw (e, unregister_timer) (s, f, refl)
    | inr (t, e) ↦ elim (Option-cases t.owner) [
      | inl o ↦ rw (e, unregister_timer, o) (s, f, refl)
      | inr (_, o) ↦
          rw (e, unregister_timer, o)
            (set_timer-Stays id t (record t { owner = none }) m e refl s f)
    ]
  ]

  pub reg_hour-Stays : (id r : ℕ) (m : TimerMgr) → Stays a m (reg_hour id r m)
  unfolding reg_hour reg_day
  reg_hour-Stays id r m s f = elim (Bool-cases (leb r (wheel_size hour))) [
    | inl b ↦ rw (b, reg_hour) (push-Stays hour _ id m s f)
    | inr b ↦ rw (b, reg_hour) (push-Stays day _ id m s f)
  ]

  pub reg_sec-Stays : (id r : ℕ) (m : TimerMgr) → Stays a m (reg_sec id r m)
  unfolding reg_sec
  reg_sec-Stays id r m s f = elim (Bool-cases (leb r (wheel_size sec))) [
    | inl b ↦ rw (b, reg_sec) (push-Stays sec _ id m s f)
    | inr b ↦ rw (b, reg_sec) (reg_hour-Stays id _ m s f)
  ]

  pub reg-Stays : (id tick : ℕ) (m : TimerMgr) → Stays a m (reg id tick m)
  unfolding reg
  reg-Stays id tick m s f = elim (Option-cases (m.timers id)) [
    | inl e ↦ rw (e, reg) (s, f, refl)
    | inr (t, e) ↦ rw (e, reg) (reg_sec-Stays id _ m s f)
  ]

  -- Another timer is taken out.
  pub delete_timer-Stays : (id : ℕ) (m : TimerMgr) → id ≢ a → Stays a m (delete_timer id m)
  unfolding delete_timer
  delete_timer-Stays id m n s f =
      let (s', f', d) = unregister_timer-Stays id m s f in
      (s', rw (==-ne a id (λ q. n (sym q))) f', d)

  pub started : (now : ℕ) (m : TimerMgr) → (start_clock now m).timers a ≡ m.timers a
  started now m = ground arith

  -- A timer whose id is taken is not registered again.
  pub register_timer-Stays :
      (now id : ℕ) (q : Request) (m : TimerMgr) → Stays a m (register_timer now id q m).0
  unfolding register_timer
  register_timer-Stays now id q m s f = elim (Bool-cases (not (is_accepted q) || id == 0)) [
    | inl b ↦ rw (b, register_timer) (s, f, refl)
    | inr b ↦ elim (Option-cases (m.timers id)) [
      | inr (_, e) ↦ rw (b, register_timer, e) (s, f, refl)
      | inl e ↦
          let n : a ≢ id = λ u. cc (u, e, f) in
          let m' = start_clock now (set_timer id (new_timer now id q) m) in
          let g : m'.timers a ≡ some s =
            started now (set_timer id (new_timer now id q) m) ∙ update-ne m.timers id _ a n ∙ f in
          rw (b, register_timer, e) (reg-Stays id m'.lasttick m' s g)
    ]
  ]

  pub destroy_timer-Stays : (id : ℕ) (m : TimerMgr) → id ≢ a → Stays a m (destroy_timer id m).0
  unfolding destroy_timer
  destroy_timer-Stays id m n s f = elim (Bool-cases (id == 0)) [
    | inl b ↦ rw (b, destroy_timer) (s, f, refl)
    | inr b ↦ elim (Option-cases (m.timers id)) [
      | inl e ↦ rw (b, destroy_timer, e) (s, f, refl)
      | inr (t, e) ↦ elim (Bool-cases t.is_in_proc) [
        | inl h ↦
            rw (b, destroy_timer, e, h)
              (set_timer-Stays id t
                (record t { forever = false; repeats = pos 0; is_in_proc = true }) m e refl s f)
        | inr h ↦ rw (b, destroy_timer, e, h) (delete_timer-Stays id m n s f)
      ]
    ]
  ]

  pub run_call-Stays : (c : Call) (m : TimerMgr) → Spares a c → Stays a m (run_call c m)
  unfolding run_call
  run_call-Stays (registers now id q) m ok s f = register_timer-Stays now id q m s f
  run_call-Stays (destroys id) m ok s f = destroy_timer-Stays id m ok s f

  pub run_calls-Stays :
      (cs : List Call) (m : TimerMgr) → All (Spares a) cs → Stays a m (run_calls cs m)
  unfolding run_calls
  run_calls-Stays [] m ok s f = (s, f, refl)
  run_calls-Stays (c ∷ cs) m ok s f =
      let (s', f', d) = run_call-Stays c m ok.0 s f in
      let (s'', f'', d') = run_calls-Stays cs (run_call c m) ok.1 s' f' in (s'', f'', d' ∙ d)

  pub set_in_proc-Stays : (id : ℕ) (b : Bool) (m : TimerMgr) → Stays a m (set_in_proc id b m)
  set_in_proc-Stays id b m s f = elim (Option-cases (m.timers id)) [
    | inl e ↦ rw (e, set_in_proc) (s, f, refl)
    | inr (t, e) ↦
        rw (e, set_in_proc) (set_timer-Stays id t (record t { is_in_proc = b }) m e refl s f)
  ]

  -- Fire repeats or destroys another timer.
  pub settle-Stays : (tick id : ℕ) (m : TimerMgr) → id ≢ a → Stays a m (settle tick id m)
  unfolding settle
  settle-Stays tick id m n s f = elim (Option-cases (m.timers id)) [
    | inl e ↦ rw (e, settle) (s, f, refl)
    | inr (t, e) ↦
        let v = if t.forever then t.repeats else pred_ℤ t.repeats in
        let t1 : Timer = record t { repeats = v; expire = cal_expire tick t.interval } in
        let t2 : Timer = record t { repeats = v } in
        let away : (u : Timer) → (set_timer id u m).timers a ≡ some s =
          λ u. update-ne m.timers id (some u) a (λ q. n (sym q)) ∙ f in
        elim (Bool-cases (is_pos v || t.forever)) [
          | inl b ↦ rw (e, settle, b) (reg-Stays id tick (set_timer id t1 m) s (away t1))
          | inr b ↦ rw (e, settle, b) (delete_timer-Stays id (set_timer id t2 m) n s (away t2))
        ]
  ]
