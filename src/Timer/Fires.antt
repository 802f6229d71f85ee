-- ===== src/Timer/Fires.antt =====
-- A timer that is due runs: TimerMgr::Proc after any history.
use coroutine_transaction.Base.{
  ℕ, ◌+◌, ◌*◌, ◌≤◌, ◌<◌, ◌≡◌, Bool, some, List, arith, All, length, inl, inr, refl,
}
use coroutine_transaction.Timer.{Timer, TimerMgr, u32_mod, max_timeout}
use coroutine_transaction.Timer.Register.{Call}
use coroutine_transaction.Timer.Fire.{proc}
use coroutine_transaction.Timer.Loop.{limit}
use coroutine_transaction.Timer.Clock.{ScriptOk}
use coroutine_transaction.Timer.Stays.{Spares}
use coroutine_transaction.Timer.Kept.{Ran, Alive, proc-Alive}
use coroutine_transaction.Timer.History.{Op, OpsOk, clock_after, run_ops, start, proc-OnTime}

-- After any history of registrations, destructions and runs of Proc, and with any callbacks that
-- do not destroy the timer `a`, a run of Proc at a clock reading that has reached the expiry of
-- `a` runs its OnTimeout for that expiry. The clock, as callers and callbacks read it, must not
-- run back, and must stay between two multiples of 2 ^ 32 ms, more than MAX_TIMEOUT below the
-- upper one.
pub proc-Ran :
    (script : ℕ → ℕ → List Call) (funcs : ℕ → Bool) (c t now : ℕ) (os : List Op) (a : ℕ) (s : Timer)
    → c < u32_mod
    → c * u32_mod ≤ t
    → ScriptOk c script
    → OpsOk c t os
    → clock_after t os ≤ now
    → now + max_timeout < limit c
    → ((k i : ℕ) → All (Spares a) (script k i))
    → (run_ops script os (start funcs)).timers a ≡ some s
    → s.expire ≤ now
    → let m = run_ops script os (start funcs) in
      Ran a (length m.firings) s.expire (proc script now m).firings
proc-Ran script funcs c t now os a s small above ok o le room spared found due = ran after
  where
    m : TimerMgr
    m = run_ops script os (start funcs)

    k : ℕ
    k = length m.firings

    after : Alive a k s.expire (proc script now m)
    after = proc-Alive a k s.expire script spared now m (omega arith, inr (s, found, refl))

    ran : Alive a k s.expire (proc script now m) → Ran a k s.expire (proc script now m).firings
    ran (_, inl r) = r
    ran (_, inr (u, f, e)) =
        let late = (proc-OnTime script funcs c t now os small above ok o le room).1 a u f in
        absurd (omega arith)
