-- ===== src/Timer/Kept.antt =====
-- A timer that nobody destroys keeps its expiry until it has run.
use coroutine_transaction.Base.{
  ℕ, zero, suc, ◌≤◌, ◌-◌, ◌≡◌, ◌≢◌, ◌⊎◌, inl, inr, refl, sym, ap, ◌∙◌, Bool, true, false, none,
  some, List, [], ◌∷◌, arith, Bool-cases, Option-cases, ℕ-cases, All, ◌==◌, ltb, length,
}
use mathlib.Core.Path.{subst}
use coroutine_transaction.Timer.{
  Timer, TimerMgr, WheelType, sec, hour, day, Firing, reg, unregister_timer, same_wheel, pop,
  wheel_size,
}
use coroutine_transaction.Timer.Register.{Call, run_calls}
use coroutine_transaction.Timer.Fire.{
  set_in_proc, settle, on_timeout, run_timer, fire_one, fire_slot, fire_list, fire_day, fire_hour,
  fire, tick_once, ticks, proc, advance, cur_slot,
}
use coroutine_transaction.Timer.Stays.{
  Stays, Spares, unregister_timer-Stays, reg-Stays, run_calls-Stays, set_in_proc-Stays,
  settle-Stays,
}
use coroutine_transaction.Timer.Firings.{
  unregister_timer-firings, reg-firings, run_calls-firings, settle-firings, set_in_proc-firings,
  run_timer-firings, firing,
}

-- The timer `a` has run for the time `e`, after the first `k` firings.
abbrev pub Ran : ℕ → ℕ → ℕ → List Firing → Type 0
Ran a k e [] = ⊥
Ran a k e (f ∷ fs) = ((f.id ≡ a) × (f.due ≡ e) × (k ≤ length fs)) ⊎ Ran a k e fs

-- There have been `k` firings, and since then the timer has run for the time `e`, or it is still due
-- then.
abbrev pub Alive : ℕ → ℕ → ℕ → TimerMgr → Type 0
Alive a k e m =
    (k ≤ length m.firings)
    × (Ran a k e m.firings ⊎ ((s : Timer) × (m.timers a ≡ some s) × (s.expire ≡ e)))

module _ (a k : ℕ) where
  Alive-Stays :
      (e : ℕ) (m m' : TimerMgr)
      → m'.firings ≡ m.firings
      → Stays a m m'
      → Alive a k e m
      → Alive a k e m'
  Alive-Stays e m m' q kept (le, inl r) = (rw q le, inl (subst (Ran a k e) (sym q) r))
  Alive-Stays e m m' q kept (le, inr (s, f, d)) =
      let (s', f', d') = kept s f in (rw q le, inr (s', f', d' ∙ d))

  -- A round on another timer, and on this one.
  module _ (e : ℕ) (script : ℕ → ℕ → List Call) (tick : ℕ) where
    on_timeout-Alive :
        (id : ℕ) (m : TimerMgr)
        → All (Spares a) (script tick id)
        → Alive a k e m
        → Alive a k e (on_timeout script tick id m)
    unfolding on_timeout
    on_timeout-Alive id m ok h = elim (Option-cases (m.timers id)) [
      | inl f ↦ rw (f, on_timeout) h
      | inr (t, f) ↦
          let m1 = record m { firings = firing tick id t.expire ∷ m.firings } in
          elim (Bool-cases (m.timer_funcs t.timer_func_id)) [
            | inl b ↦
                rw (f, on_timeout, b)
                  (Alive-Stays e m1 (run_calls (script tick id) m1)
                    (run_calls-firings (script tick id) m1)
                    (run_calls-Stays a (script tick id) m1 ok) (noted id t m h))
            | inr b ↦ rw (f, on_timeout, b) (noted id t m h)
          ]
    ]
      where
        noted :
            (id : ℕ) (t : Timer) (m : TimerMgr)
            → Alive a k e m
            → Alive a k e (record m { firings = firing tick id t.expire ∷ m.firings })
        noted id t m (le, inl r) = (omega arith, inl (inr r))
        noted id t m (le, inr q) = (omega arith, inr q)

    run_other-Alive :
        (id : ℕ) (m : TimerMgr)
        → id ≢ a
        → All (Spares a) (script tick id)
        → Alive a k e m
        → Alive a k e (run_timer script tick id m)
    unfolding run_timer
    run_other-Alive id m n ok h =
        let m1 = set_in_proc id true m in
        let m2 = on_timeout script tick id m1 in
        let m3 = set_in_proc id false m2 in
        let m4 = unregister_timer id m3 in
        Alive-Stays e m4 (settle tick id m4) (settle-firings tick id m4)
          (settle-Stays a tick id m4 n)
          (Alive-Stays e m3 m4 (unregister_timer-firings id m3) (unregister_timer-Stays a id m3) (
            Alive-Stays e m2 m3 (set_in_proc-firings id false m2) (set_in_proc-Stays a id false m2)
              (on_timeout-Alive id m1 ok (
                Alive-Stays e m m1 (set_in_proc-firings id true m) (set_in_proc-Stays a id true m)
                  h))))

    run_missing : (m : TimerMgr) → m.timers a ≡ none → run_timer script tick a m ≡ m
    unfolding run_timer on_timeout unregister_timer settle
    run_missing m f =
        let idle : (b : Bool) → set_in_proc a b m ≡ m = λ b. rw (f, set_in_proc) refl in
        let quiet : on_timeout script tick a m ≡ m = rw (f, on_timeout) refl in
        let apart : unregister_timer a m ≡ m = rw (f, unregister_timer) refl in
        let still : settle tick a m ≡ m = rw (f, settle) refl in
        ap
          (λ x.
            settle tick a (unregister_timer a (set_in_proc a false (on_timeout script tick a x))))
          (idle true)
        ∙ ap (λ x. settle tick a (unregister_timer a (set_in_proc a false x))) quiet
        ∙ ap (λ x. settle tick a (unregister_timer a x)) (idle false)
        ∙ ap (settle tick a) apart
        ∙ still

    run_same-Alive : (m : TimerMgr) → Alive a k e m → Alive a k e (run_timer script tick a m)
    run_same-Alive m h = elim (Option-cases (m.timers a)) [
      | inl f ↦ rw (run_missing m f) h
      | inr (t, f) ↦
          let q = run_timer-firings script tick a m t f in
          (rw q (omega (arith, h.0)), inl (subst (Ran a k e) (sym q) (ran t f h)))
    ]
      where
        ran :
            (t : Timer)
            → m.timers a ≡ some t
            → Alive a k e m
            → Ran a k e (firing tick a t.expire ∷ m.firings)
        ran t f (le, inl r) = inr r
        ran t f (le, inr (s, g, d)) =
            let q : t ≡ s = cc (f, g) in inl (refl, ap (λ (u : Timer). u.expire) q ∙ d, le)

    run_timer-Alive :
        (id : ℕ) (m : TimerMgr)
        → All (Spares a) (script tick id)
        → Alive a k e m
        → Alive a k e (run_timer script tick id m)
    run_timer-Alive id m ok h = elim (ℕ-cases id a) [
      | inl q ↦
          subst (λ (i : ℕ). Alive a k e (run_timer script tick i m)) (sym q) (run_same-Alive m h)
      | inr n ↦ run_other-Alive id m n ok h
    ]

  module _ (e : ℕ) (script : ℕ → ℕ → List Call)
      (ok : (t id : ℕ) → All (Spares a) (script t id)) where
    fire_one-Alive :
        (w : WheelType) (x tick : ℕ) (m : TimerMgr)
        → Alive a k e m
        → Alive a k e (fire_one script w x tick m)
    unfolding fire_one pop
    fire_one-Alive w x tick m h = popped (m.tlist w x) refl
      where
        popped : (l : List ℕ) → m.tlist w x ≡ l → Alive a k e (fire_one script w x tick m)
        popped [] q = rw (q, fire_one) h
        popped (id ∷ ids) q =
            let m1 = unregister_timer id m in
            let h1 =
              Alive-Stays e m m1 (unregister_timer-firings id m) (unregister_timer-Stays a id m)
                h in
            elim (Bool-cases (same_wheel w sec)) [
              | inl b ↦ rw (q, fire_one, b) (run_timer-Alive e script tick id m1 (ok tick id) h1)
              | inr b ↦
                  rw (q, fire_one, b)
                    (Alive-Stays e m1 (reg id tick m1) (reg-firings id tick m1)
                      (reg-Stays a id tick m1) h1)
            ]

    fire_slot-Alive :
        (w : WheelType) (x tick n : ℕ) (m : TimerMgr)
        → Alive a k e m
        → Alive a k e (fire_slot script w x tick n m)
    unfolding fire_slot
    fire_slot-Alive w x tick zero m h = h
    fire_slot-Alive w x tick (suc n) m h =
        fire_slot-Alive w x tick n (fire_one script w x tick m) (fire_one-Alive w x tick m h)

    -- A move of a wheel, with all timers of its new slot.
    turn-Alive :
        (w : WheelType) (tick : ℕ) (m : TimerMgr)
        → Alive a k e m
        → Alive a k e (fire_list script w tick (advance w m))
    unfolding fire_list advance
    turn-Alive w tick m h =
        fire_slot-Alive w (cur_slot w (advance w m)) tick
          (length ((advance w m).tlist w (cur_slot w (advance w m)))) (advance w m) h

    fire_hour-Alive :
        (tick : ℕ) (m : TimerMgr) → Alive a k e m → Alive a k e (fire_hour script tick m)
    unfolding fire_hour fire_day
    fire_hour-Alive tick m h =
        let m1 = fire_list script hour tick (advance hour m) in
        elim (Bool-cases (suc (cur_slot hour m1) == wheel_size hour)) [
          | inl b ↦ rw (b, fire_hour) (turn-Alive day tick m1 (turn-Alive hour tick m h))
          | inr b ↦ rw (b, fire_hour) (turn-Alive hour tick m h)
        ]

    fire-Alive : (tick : ℕ) (m : TimerMgr) → Alive a k e m → Alive a k e (fire script tick m)
    unfolding fire
    fire-Alive tick m h =
        let m1 = fire_list script sec tick (advance sec m) in
        elim (Bool-cases (suc (cur_slot sec m1) == wheel_size sec)) [
          | inl b ↦ rw (b, fire) (fire_hour-Alive tick m1 (turn-Alive sec tick m h))
          | inr b ↦ rw (b, fire) (turn-Alive sec tick m h)
        ]

    ticks-Alive : (n : ℕ) (m : TimerMgr) → Alive a k e m → Alive a k e (ticks script n m)
    unfolding ticks tick_once
    ticks-Alive zero m h = h
    ticks-Alive (suc n) m h =
        ticks-Alive n (tick_once script m)
          (fire-Alive (suc m.lasttick) (record m { lasttick = suc m.lasttick }) h)

    pub proc-Alive : (now : ℕ) (m : TimerMgr) → Alive a k e m → Alive a k e (proc script now m)
    unfolding proc
    proc-Alive now m h = elim (Bool-cases m.ticking) [
      | inr b ↦ let q : proc script now m ≡ m = simp b in subst (Alive a k e) (sym q) h
      | inl b ↦ elim (Bool-cases (ltb now m.lasttick)) [
        | inl c ↦
            let q : proc script now m ≡ record m { lasttick = now } = simp (b, c) in
            subst (Alive a k e) (sym q) h
        | inr c ↦
            let q : proc script now m ≡ ticks script (now - m.lasttick) m = simp (b, c) in
            subst (Alive a k e) (sym q) (ticks-Alive (now - m.lasttick) m h)
      ]
    ]
