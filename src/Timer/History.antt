-- ===== src/Timer/History.antt =====
-- A manager from its start: registrations, destructions and calls of TimerMgr::Proc in any order.
use coroutine_transaction.Base.{
  ℕ, ◌+◌, ◌*◌, ◌≤◌, ◌<◌, ◌≡◌, refl, sym, ap, ◌⊎◌, inl, inr, Bool, not, ◌||◌, some, List, [], ◌∷◌,
  arith, ◌==◌, All, Bool-cases,
}
use mathlib.Core.Path.{subst}
use coroutine_transaction.Timer.{
  Timer, TimerMgr, WheelType, sec, hour, day, u32_mod, max_timeout, init,
}
use coroutine_transaction.Timer.Register.{Call, Request, registers, destroys, run_call, is_accepted}
use coroutine_transaction.Timer.Fire.{proc}
use coroutine_transaction.Timer.Placed.{Phase, Placed}
use coroutine_transaction.Timer.Loop.{limit}
use coroutine_transaction.Timer.Destroyed.{destroy_timer-missing}
use coroutine_transaction.Timer.Slots.{Timely}
use coroutine_transaction.Timer.Phases.{steady}
use coroutine_transaction.Timer.Turns.{Ready}
use coroutine_transaction.Timer.Clock.{ScriptOk, proc-Ready}
use coroutine_transaction.Timer.Start.{
  Idle, Sound, run_call-Ready, started, started-Ready, first_refused, first_accepted, Ready-Sound,
  proc-stopped,
}

pub data Op : Type 0 where
  calls : Call → Op
  procs : ℕ → Op

unfoldable pub run_op : (ℕ → ℕ → List Call) → Op → TimerMgr → TimerMgr
run_op script (calls c) m = run_call c m
run_op script (procs now) m = proc script now m

unfoldable pub run_ops : (ℕ → ℕ → List Call) → List Op → TimerMgr → TimerMgr
unfolding run_op
run_ops script [] m = m
run_ops script (o ∷ os) m = run_ops script os (run_op script o m)

-- The clock never runs back, and stays in the window.
abbrev pub OpsOk : ℕ → ℕ → List Op → Type 0
OpsOk c t [] = Unit
OpsOk c t (calls (registers now id q) ∷ os) =
    (t ≤ now) × (now + max_timeout < limit c) × OpsOk c now os
OpsOk c t (calls (destroys id) ∷ os) = OpsOk c t os
OpsOk c t (procs now ∷ os) = (t ≤ now) × (now + max_timeout < limit c) × OpsOk c now os

-- The last clock reading of a history.
abbrev pub clock_after : ℕ → List Op → ℕ
clock_after t [] = t
clock_after t (calls (registers now id q) ∷ os) = clock_after now os
clock_after t (calls (destroys id) ∷ os) = clock_after t os
clock_after t (procs now ∷ os) = clock_after now os

module _ (script : ℕ → ℕ → List Call) {c : ℕ} (small : c < u32_mod) (ok : ScriptOk c script) where
  register_op :
      (t now id : ℕ) (q : Request) (m : TimerMgr)
      → c * u32_mod ≤ t
      → t ≤ now
      → now + max_timeout < limit c
      → Sound c t m
      → Sound c now (run_call (registers now id q) m)
  unfolding Sound
  register_op t now id q m above le room (inr (r, a, b, d)) =
      Ready-Sound (run_call-Ready (registers now id q) small b d (omega arith, room) r)
        (omega arith) b d
  register_op t now id q m above le room (inl i) =
      elim (Bool-cases (not (is_accepted q) || id == 0)) [
        | inl e ↦ unfold run_call in rw (first_refused now id q m e) (inl i)
        | inr e ↦
            unfold run_call started in
            rw (first_accepted now id q m i e) (
              Ready-Sound
                (run_call-Ready (registers now id q) small (omega arith) room (omega arith, room)
                  (started-Ready c now m i))
                (omega arith) (omega arith) room)
      ]

  destroy_op : (t id : ℕ) (m : TimerMgr) → Sound c t m → Sound c t (run_call (destroys id) m)
  unfolding Sound
  destroy_op t id m (inr (r, a, b, d)) =
      Ready-Sound (run_call-Ready (destroys id) small b d tt r) a b d
  destroy_op t id m (inl i) =
      unfold run_call in rw (destroy_timer-missing m id (i.no_timers id)) (inl i)

  proc_op :
      (t now : ℕ) (m : TimerMgr)
      → c * u32_mod ≤ t
      → t ≤ now
      → now + max_timeout < limit c
      → Sound c t m
      → Sound c now (proc script now m)
  unfolding Sound
  proc_op t now m above le room (inr (r, a, b, d)) =
      Ready-Sound (proc-Ready script small room ok b (omega arith) r) (omega arith) (omega arith)
        room
  proc_op t now m above le room (inl i) = rw (proc-stopped script now m i.stopped) (inl i)

  run_ops-Sound :
      (os : List Op) (t : ℕ) (m : TimerMgr)
      → c * u32_mod ≤ t
      → OpsOk c t os
      → Sound c t m
      → Sound c (clock_after t os) (run_ops script os m)
  unfolding run_ops run_op
  run_ops-Sound [] t m above o i = i
  run_ops-Sound (calls (registers now id q) ∷ os) t m above o i =
      run_ops-Sound os now _ (omega arith) o.2 (register_op t now id q m above o.0 o.1 i)
  run_ops-Sound (calls (destroys id) ∷ os) t m above o i =
      run_ops-Sound os t _ above o (destroy_op t id m i)
  run_ops-Sound (procs now ∷ os) t m above o i =
      run_ops-Sound os now _ (omega arith) o.2 (proc_op t now m above o.0 o.1 i)

-- A manager with its callbacks registered and nothing else done.
unfoldable pub start : (ℕ → Bool) → TimerMgr
unfolding init
start funcs = record init { timer_funcs = funcs }

start-Idle : (funcs : ℕ → Bool) → Idle (start funcs)
unfolding start
start-Idle funcs = record {
  stopped = refl;
  at_start = refl;
  no_lists = λ _ _. refl;
  no_timers = λ _. refl;
  no_firings = refl;
}

Placed-late : (p : Phase) (u : WheelType) (x e : ℕ) → Placed p u x e → p.tick < e
Placed-late p sec x e g = g.0
Placed-late p hour x e (j, lo, _, _, g) = omega arith
Placed-late p day x e (j, lo, _, _, g) = omega arith

-- What a caller can rely on at the tick `t`.
abbrev pub OnTime : ℕ → TimerMgr → Type 0
OnTime t m = All Timely m.firings × ((id : ℕ) (s : Timer) → m.timers id ≡ some s → t < s.expire)

Ready-OnTime : {c t : ℕ} {m : TimerMgr} → Ready c t m → OnTime t m
Ready-OnTime {c} {t} {m} (s, h, d, i) = (i.timely, late)
  where
    late : (id : ℕ) (u : Timer) → m.timers id ≡ some u → t < u.expire
    late id u f = elim (i.linked.pending id u f) [
      | inl z ↦ cc (f, i.linked.no_zero, ap m.timers z)
      | inr (w, x, e) ↦
          let l = i.linked.listed w x id e in
          let q : l.timer ≡ u = cc (l.found, f) in
          subst (λ (v : Timer). t < v.expire) q
            (Placed-late (steady t s h d) w x l.timer.expire l.good.0)
    ]

-- After any history of registrations, destructions and runs of Proc, with any callbacks, a run of
-- Proc at the clock reading `now` leaves no timer in the table that was due by `now`, and every
-- OnTimeout so far ran at the tick for which its timer was due or exactly 1000 ms before it. The
-- clock, as callers and callbacks read it, must not run back, and must stay between two multiples
-- of 2 ^ 32 ms, more than MAX_TIMEOUT below the upper one.
pub proc-OnTime :
    (script : ℕ → ℕ → List Call) (funcs : ℕ → Bool) (c t now : ℕ) (os : List Op)
    → c < u32_mod
    → c * u32_mod ≤ t
    → ScriptOk c script
    → OpsOk c t os
    → clock_after t os ≤ now
    → now + max_timeout < limit c
    → OnTime now (proc script now (run_ops script os (start funcs)))
unfolding Sound
proc-OnTime script funcs c t now os small above ok o le room = finish end
  where
    m : TimerMgr
    m = run_ops script os (start funcs)

    end : Sound c (clock_after t os) m
    end = run_ops-Sound script small ok os t (start funcs) above o (inl (start-Idle funcs))

    finish :
        Idle m
          ⊎ (Ready c m.lasttick m
              × (m.lasttick ≤ clock_after t os)
              × (c * u32_mod ≤ m.lasttick)
              × (m.lasttick + max_timeout < limit c))
        → OnTime now (proc script now m)
    finish (inl i) =
        subst (OnTime now) (sym (proc-stopped script now m i.stopped))
          (subst (All Timely) (sym i.no_firings) tt, λ id s f. cc (i.no_timers id, f))
    finish (inr (r, a, b, d)) = Ready-OnTime (proc-Ready script small room ok b (omega arith) r)
