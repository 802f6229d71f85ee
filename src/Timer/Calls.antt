-- ===== src/Timer/Calls.antt =====
-- What the calls of a callback leave of the state in the middle of the loop.
use coroutine_transaction.Base.{
  ℕ, ◌+◌, ◌-◌, ◌/◌, ◌≤◌, ◌<◌, ◌≡◌, refl, sym, ap, ◌∙◌, ◌≢◌, inl, inr, true, false, not, ◌||◌, none,
  some, List, [], ◌∷◌, arith, ◌==◌, update, leb, Bool-cases, update_self, update-ne, Option-cases,
  All,
}
use mathlib.Core.Path.{subst}
use coroutine_transaction.Timer.{
  Timer, TimerMgr, WheelType, push, reg, reg_sec, reg_hour, reg_day, cal_remain, max_timeout,
  set_timer,
}
use coroutine_transaction.Timer.Register.{
  register_timer, Request, Call, registers, destroys, run_calls, is_accepted, new_timer, clamp,
  cal_expire,
}
use coroutine_transaction.Timer.Placed.{Phase}
use coroutine_transaction.Timer.Loop.{Running, Window, limit}
use coroutine_transaction.Timer.Steps.{reg-Running}
use coroutine_transaction.Timer.Destroyed.{
  Held, CallOk, clamp_bounds, cal_expire-add, destroy_timer-Running,
}

-- Reg changes no other timer.
push-timers :
    (j a : ℕ) (w : WheelType) (x : ℕ) (m : TimerMgr) → j ≢ a → (push w x a m).timers j ≡ m.timers j
unfolding push
push-timers j a w x m ne = elim (Option-cases (m.timers a)) [
  | inl e ↦ rw (e, push)
  | inr (t, e) ↦ elim (Option-cases t.owner) [
    | inl o ↦ rw (e, push, o) (update-ne m.timers a _ j ne)
    | inr (o, q) ↦ rw (e, push, q)
  ]
]

reg_sec-timers : (j a r : ℕ) (m : TimerMgr) → j ≢ a → (reg_sec a r m).timers j ≡ m.timers j
unfolding reg_sec reg_hour reg_day
reg_sec-timers j a r m ne = elim (Bool-cases (leb r 1000)) [
  | inl e ↦ rw e (push-timers j a _ _ m ne)
  | inr e ↦ elim (Bool-cases (leb ((r - 1) / 1000) 3600)) [
    | inl q ↦ rw (e, q) (push-timers j a _ _ m ne)
    | inr q ↦ rw (e, q) (push-timers j a _ _ m ne)
  ]
]

pub reg-timers : (j a t : ℕ) (m : TimerMgr) → j ≢ a → (reg a t m).timers j ≡ m.timers j
unfolding reg
reg-timers j a t m ne = elim (Option-cases (m.timers a)) [
  | inl e ↦ rw (e, reg)
  | inr (s, e) ↦ rw (e, reg) (reg_sec-timers j a (cal_remain t s.expire) m ne)
]

-- RegisterTimer refuses, or enters a new timer.
register_timer-refused :
    (now id : ℕ) (q : Request) (m : TimerMgr)
    → (not (is_accepted q) || id == 0) ≡ true
    → (register_timer now id q m).0 ≡ m
unfolding register_timer
register_timer-refused now id q m e = rw e

register_timer-taken :
    (now id : ℕ) (q : Request) (m : TimerMgr) (t : Timer)
    → m.timers id ≡ some t
    → (register_timer now id q m).0 ≡ m
unfolding register_timer
register_timer-taken now id q m t f = elim (Bool-cases (not (is_accepted q) || id == 0)) [
  | inl e ↦ rw e
  | inr e ↦ rw (e, f)
]

register_timer-new :
    (now id : ℕ) (q : Request) (m : TimerMgr)
    → (not (is_accepted q) || id == 0) ≡ false
    → m.timers id ≡ none
    → m.ticking ≡ true
    → (register_timer now id q m).0 ≡ reg id m.lasttick (set_timer id (new_timer now id q) m)
unfolding register_timer
register_timer-new now id q m e f g = rw (e, f, g)

module _ {w : WheelType} {p : Phase} {c n k : ℕ} {m : TimerMgr} (r : Running w p c n k m)
    (held : Held k m) (win : Window c p) (now id : ℕ) (q : Request)
    (ok : (p.tick ≤ now) × (now + max_timeout < limit c)) where
  register_new :
      (not (is_accepted q) || id == 0) ≡ false
      → m.timers id ≡ none
      → Running w p c n k (reg id p.tick (set_timer id (new_timer now id q) m))
  register_new e f =
      reg-Running r win id k (new_timer now id q) (update m.timers id (some (new_timer now id q)))
        (update_self m.timers id _) (update-ne m.timers id _) (λ u y l. cc (f, l.found))
        (λ j _ h. h) refl refl (clamp_bounds q.interval) (ground arith)
        (λ s ne g. r.inv.free s (sym (update-ne m.timers id _ k ne) ∙ g))
        (λ z. elim held [ inl zero_k ↦ ground arith | inr (t, g, _) ↦ cc (f, g, ap m.timers z) ])
        (rw due (omega (arith, clamp_bounds q.timeout)))
        (rw due (omega (arith, clamp_bounds q.timeout)))
    where
      due : cal_expire now (clamp q.timeout 1 max_timeout) ≡ now + clamp q.timeout 1 max_timeout
      due =
          cal_expire-add c now (clamp q.timeout 1 max_timeout) win.small ok.1
            (clamp_bounds q.timeout).1

  Held-new : m.timers id ≡ none → (t : ℕ) → Held k (reg id t (set_timer id (new_timer now id q) m))
  Held-new f t = elim held [
    | inl z ↦ inl z
    | inr (s, g, b) ↦
        let ne : k ≢ id = λ z. cc (f, g, ap m.timers z) in
        inr (s, reg-timers k id t _ ne ∙ update-ne m.timers id _ k ne ∙ g, b)
  ]

  -- RegisterTimer keeps the state of the loop.
  pub register_timer-Running :
      Running w p c n k (register_timer now id q m).0 × Held k (register_timer now id q m).0
  register_timer-Running = elim (Bool-cases (not (is_accepted q) || id == 0)) [
    | inl e ↦ rw (register_timer-refused now id q m e) (r, held)
    | inr e ↦ elim (Option-cases (m.timers id)) [
      | inr (t, f) ↦ rw (register_timer-taken now id q m t f) (r, held)
      | inl f ↦ rw (register_timer-new now id q m e f r.synced.ticking) (
        subst (λ t. Running w p c n k (reg id t (set_timer id (new_timer now id q) m)))
            (sym r.synced.at_tick) (register_new e f),
        Held-new f m.lasttick,
      )
    ]
  ]

-- All the calls of a callback keep the state of the loop.
pub run_calls-Running :
    {w : WheelType} {p : Phase} {c n k : ℕ} (cs : List Call) {m : TimerMgr}
    → Window c p
    → All (CallOk c p.tick) cs
    → Running w p c n k m
    → Held k m
    → Running w p c n k (run_calls cs m) × Held k (run_calls cs m)
unfolding run_calls
run_calls-Running [] win ok r held = (r, held)
run_calls-Running (registers now id q ∷ cs) win ok r held =
    let next = register_timer-Running r held win now id q ok.0 in
    run_calls-Running cs win ok.1 next.0 next.1
run_calls-Running (destroys id ∷ cs) win ok r held =
    let next = destroy_timer-Running r held id in run_calls-Running cs win ok.1 next.0 next.1
