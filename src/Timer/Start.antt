-- ===== src/Timer/Start.antt =====
-- A manager at its start, and how its clock begins to run.
use coroutine_transaction.Base.{
  ℕ, ◌+◌, ◌*◌, ◌≤◌, ◌<◌, ◌≡◌, refl, sym, ap, ◌⊎◌, inl, inr, true, false, not, ◌||◌, none, List, [],
  arith, ◌==◌, ℤ, All, Elem,
}
use mathlib.Core.Path.{subst}
use coroutine_transaction.Timer.{
  TimerMgr, WheelType, sec, hour, day, u32_mod, max_timeout, init_cur,
}
use coroutine_transaction.Timer.Register.{
  Call, Request, registers, destroys, register_timer, run_call, is_accepted,
}
use coroutine_transaction.Timer.Fire.{proc}
use coroutine_transaction.Timer.Placed.{Phase, At}
use coroutine_transaction.Timer.Loop.{
  position, InTime-Looping, Listed-map, Running, Running-done, limit,
}
use coroutine_transaction.Timer.Destroyed.{CallOk, destroy_timer-Running}
use coroutine_transaction.Timer.Calls.{register_timer-Running}
use coroutine_transaction.Timer.Firings.{run_call-firings}
use coroutine_transaction.Timer.Slots.{Timely}
use coroutine_transaction.Timer.Turns.{InPhase, Ready}

-- Nothing has been registered.
pub record Idle (m : TimerMgr) : Type 0 where
  pub stopped : m.ticking ≡ false
  pub at_start : m.cur ≡ init_cur
  pub no_lists : (w : WheelType) (x : ℕ) → m.tlist w x ≡ []
  pub no_timers : (id : ℕ) → m.timers id ≡ none
  pub no_firings : m.firings ≡ []

-- The manager is idle, or ready with a tick that is not ahead of the clock.
unfoldable pub Sound : ℕ → ℕ → TimerMgr → Type 0
Sound c t m =
    Idle m
    ⊎ (Ready c m.lasttick m
        × (m.lasttick ≤ t)
        × (c * u32_mod ≤ m.lasttick)
        × (m.lasttick + max_timeout < limit c))

-- A manager in a phase is one in the loop with no round left.
running : {p : Phase} {c : ℕ} {m : TimerMgr} → InPhase p c m → Running sec p c 0 0 m
running {p} {c} {m} i = record {
  inv = record {
    listed = λ w x id h. Listed-map (λ v. InTime-Looping sec p c w x v) (i.linked.listed w x id h);
    pending = i.linked.pending;
    free = i.linked.free;
    no_zero = i.linked.no_zero;
    paced = i.linked.paced;
  };
  synced = i.synced;
  rest = λ j h. i.linked.listed sec (position p sec) j h;
}

in_phase :
    {p : Phase} {c : ℕ} {m m' : TimerMgr}
    → InPhase p c m
    → m'.firings ≡ m.firings
    → Running sec p c 0 0 m'
    → InPhase p c m'
in_phase i e r = record {
  synced = r.synced;
  linked = Running-done r;
  timely = subst (All Timely) (sym e) i.timely;
}

-- A call keeps a manager ready.
pub run_call-Ready :
    {c t : ℕ} {m : TimerMgr} (a : Call)
    → c < u32_mod
    → c * u32_mod ≤ t
    → t + max_timeout < limit c
    → CallOk c t a
    → Ready c t m
    → Ready c t (run_call a m)
unfolding run_call
run_call-Ready {c} {t} {m} (registers now id q) small above room ok (s, h, d, i) = (
  s,
  h,
  d,
  in_phase i (run_call-firings (registers now id q) m)
      (register_timer-Running (running i) (inl refl)
        (record { small = small; above = above; room = room }) now id q ok).0,
)
run_call-Ready {c} {t} {m} (destroys id) small above room ok (s, h, d, i) = (
  s,
  h,
  d,
  in_phase i (run_call-firings (destroys id) m) (destroy_timer-Running (running i) (inl refl) id).0,
)

-- The first registration starts the clock.
unfoldable pub started : ℕ → TimerMgr → TimerMgr
started now m = record m { ticking = true; lasttick = now }

pub started-Ready : (c now : ℕ) (m : TimerMgr) → Idle m → Ready c now (started now m)
unfolding started
started-Ready c now m i = (
  0,
  0,
  0,
  record {
    synced = record {
      ticking = refl;
      at_tick = refl;
      at_sec = subst (λ (f : WheelType → ℤ). At (f sec) 0) (sym i.at_start) (omega arith);
      at_hour = ap (λ (f : WheelType → ℤ). f hour) i.at_start;
      at_day = ap (λ (f : WheelType → ℤ). f day) i.at_start;
      s_le = omega arith;
      h_lt = omega arith;
      d_lt = omega arith;
      to_hour_le = omega arith;
      to_day_le = omega arith;
    };
    linked = record {
      listed = λ w x id h. absurd (subst (Elem id) (i.no_lists w x) h);
      pending = λ id s e. cc (i.no_timers id, e);
      free = λ s e. cc (i.no_timers 0, e);
      no_zero = i.no_timers 0;
      paced = λ id s e. cc (i.no_timers id, e);
    };
    timely = subst (All Timely) (sym i.no_firings) tt;
  },
)

pub first_refused :
    (now id : ℕ) (q : Request) (m : TimerMgr)
    → (not (is_accepted q) || id == 0) ≡ true
    → (register_timer now id q m).0 ≡ m
unfolding register_timer
first_refused now id q m e = rw e

-- On an idle manager RegisterTimer does what it does once the clock runs.
pub first_accepted :
    (now id : ℕ) (q : Request) (m : TimerMgr)
    → Idle m
    → (not (is_accepted q) || id == 0) ≡ false
    → (register_timer now id q m).0 ≡ (register_timer now id q (started now m)).0
unfolding register_timer started
first_accepted now id q m i e = rw (e, i.no_timers id, i.stopped)

pub Ready-tick : {c t : ℕ} {m : TimerMgr} → Ready c t m → m.lasttick ≡ t
Ready-tick (s, h, d, i) = i.synced.at_tick

pub Ready-Sound :
    {c t now : ℕ} {m : TimerMgr}
    → Ready c t m
    → t ≤ now
    → c * u32_mod ≤ t
    → t + max_timeout < limit c
    → Sound c now m
unfolding Sound
Ready-Sound {c} {t} {now} {m} r a b d =
    let e = Ready-tick r in
    inr (subst (λ k. Ready c k m) (sym e) r, omega arith, omega arith, omega arith)

pub proc-stopped :
    (script : ℕ → ℕ → List Call) (now : ℕ) (m : TimerMgr)
    → m.ticking ≡ false
    → proc script now m ≡ m
unfolding proc
proc-stopped script now m e = simp e
