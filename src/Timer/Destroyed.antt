-- ===== src/Timer/Destroyed.antt =====
-- Timers that are destroyed while Fire works, and what is asked of a call.
use coroutine_transaction.Base.{
  ℕ, ◌+◌, ◌≤◌, ◌<◌, ◌≡◌, refl, sym, ap, ◌∙◌, ◌≢◌, ◌⊎◌, inl, inr, true, false, none, some, arith,
  pos, ℕ-cases, update_self, update-ne, ==-ne, Option-cases,
}
use coroutine_transaction.Timer.{Timer, TimerMgr, WheelType, u32_mod, max_timeout, set_timer}
use coroutine_transaction.Timer.Register.{
  delete_timer, destroy_timer, Call, registers, destroys, clamp, cal_expire,
}
use coroutine_transaction.Timer.Placed.{Phase, Synced-of}
use coroutine_transaction.Timer.Linked.{Listed, Listed-of, Listed-ne, retime-Linked}
use coroutine_transaction.Timer.Loop.{position, Looping, InTime-Looping, Listed-map, Running, limit}
use coroutine_transaction.Timer.Unlinked.{found_ne_zero, delete_timer_lem, erased-ne}
use coroutine_transaction.Timer.Steps.{delete_timer-Running}

-- A timer is in process and marked so, or none is.
abbrev pub Held : ℕ → TimerMgr → Type 0
Held k m = (k ≡ 0) ⊎ ((t : Timer) × (m.timers k ≡ some t) × (t.is_in_proc ≡ true))

-- A registration reads a clock that is not behind the tick, and within the window.
abbrev pub CallOk : ℕ → ℕ → Call → Type 0
CallOk c tick (registers now id r) = (tick ≤ now) × (now + max_timeout < limit c)
CallOk c tick (destroys id) = Unit

pub clamp_bounds : (v : ℕ) → (1 ≤ clamp v 1 max_timeout) × (clamp v 1 max_timeout ≤ max_timeout)
clamp_bounds v = ground arith

pub cal_expire-add :
    (c t ms : ℕ)
    → c < u32_mod
    → t + max_timeout < limit c
    → ms ≤ max_timeout
    → cal_expire t ms ≡ t + ms
cal_expire-add c t ms a b d = omega arith

-- The two ways in which DestroyTimer treats a timer that it finds.
destroy_timer-busy :
    (m : TimerMgr) (id : ℕ) (t : Timer)
    → m.timers id ≡ some t
    → id ≢ 0
    → t.is_in_proc ≡ true
    → (destroy_timer id m).0 ≡ set_timer id (record t { forever = false; repeats = pos 0 }) m
unfolding destroy_timer
destroy_timer-busy m id t f nz b = rw (==-ne id 0 nz, f, b)

destroy_timer-idle :
    (m : TimerMgr) (id : ℕ) (t : Timer)
    → m.timers id ≡ some t
    → id ≢ 0
    → t.is_in_proc ≡ false
    → (destroy_timer id m).0 ≡ delete_timer id m
unfolding destroy_timer
destroy_timer-idle m id t f nz b = rw (==-ne id 0 nz, f, b)

pub destroy_timer-missing :
    (m : TimerMgr) (id : ℕ) → m.timers id ≡ none → (destroy_timer id m).0 ≡ m
unfolding destroy_timer
destroy_timer-missing m id f = ground arith

module _ {w : WheelType} {p : Phase} {c n k : ℕ} {m : TimerMgr} (r : Running w p c n k m) where
  -- The timer in process is changed.
  pub retime-Running :
      (t : Timer)
      → 0 ≢ k
      → t.owner ≡ none
      → (1 ≤ t.interval) × (t.interval ≤ max_timeout)
      → Running w p c n k (set_timer k t m)
  retime-Running t nz o pace = record {
    inv = retime-Linked t r.inv nz o pace;
    synced = Synced-of refl refl refl r.synced;
    rest = λ j h.
        let l = r.rest j h in
        Listed-of l (
          update-ne m.timers k _ j
            (Listed-ne r.inv (Listed-map (λ v. InTime-Looping w p c w (position p w) v) l)));
  }

module _ {w : WheelType} {p : Phase} {c n k : ℕ} {m : TimerMgr} (r : Running w p c n k m)
    (held : Held k m) where
  retime-Held : (t : Timer) → t.is_in_proc ≡ true → Held k (set_timer k t m)
  retime-Held t q = inr (t, update_self m.timers k _, q)

  destroy_own :
      (t : Timer)
      → m.timers k ≡ some t
      → k ≢ 0
      → Running w p c n k (destroy_timer k m).0 × Held k (destroy_timer k m).0
  destroy_own t f nz = elim held [
    | inl z ↦ absurd (nz z)
    | inr (s, g, b) ↦
        rw (destroy_timer-busy m k s g nz b) (
          retime-Running r _ (λ z. nz (sym z)) (r.inv.free s g) (r.inv.paced k s g),
          retime-Held _ b,
        )
  ]

  destroy_other :
      (u : WheelType) (x id : ℕ)
      → Listed (Looping w p c) m u x id
      → Running w p c n k (destroy_timer id m).0 × Held k (destroy_timer id m).0
  destroy_other u x id l =
      rw (destroy_timer-idle m id l.timer l.found (found_ne_zero r.inv l) l.idle)
        (delete_timer-Running r l, kept)
    where
      kept : Held k (delete_timer id m)
      kept = elim held [
        | inl z ↦ inl z
        | inr (s, g, b) ↦ inr (
          s,
          rw (delete_timer_lem r.inv l) (erased-ne r.inv l k (λ e. Listed-ne r.inv l (sym e)) ∙ g),
          b,
        )
      ]

  -- DestroyTimer keeps the state of the loop.
  pub destroy_timer-Running :
      (id : ℕ) → Running w p c n k (destroy_timer id m).0 × Held k (destroy_timer id m).0
  destroy_timer-Running id = elim (Option-cases (m.timers id)) [
    | inl f ↦ rw (destroy_timer-missing m id f) (r, held)
    | inr (t, f) ↦ elim (r.inv.pending id t f) [
      | inr (u, x, h) ↦ destroy_other u x id (r.inv.listed u x id h)
      | inl e ↦ elim (ℕ-cases k 0) [
        | inl z ↦ cc (r.inv.no_zero, f, ap m.timers (e ∙ z))
        | inr nz ↦ rw e (destroy_own t (ap m.timers (sym e) ∙ f) nz)
      ]
    ]
  ]
