-- ===== src/Timer/Clock.antt =====
-- TimerMgr::Proc: the clock runs up to the present, one tick after the other.
use coroutine_transaction.Base.{
  ℕ, zero, suc, ◌+◌, ◌-◌, ◌*◌, ◌%◌, ◌≤◌, ◌<◌, ◌≡◌, refl, sym, inl, inr, true, false, List, arith,
  ◌==◌, if◌then◌else◌, ltb, ℕ-cases, ==-ne, All,
}
use mathlib.Core.Path.{subst}
use coroutine_transaction.Timer.{TimerMgr, sec, wheel_size, u32_mod, max_timeout}
use coroutine_transaction.Timer.Register.{Call}
use coroutine_transaction.Timer.Fire.{
  advance, next_cur, cur_slot, fire_list, fire_hour, fire, tick_once, ticks, proc,
}
use coroutine_transaction.Timer.Loop.{limit}
use coroutine_transaction.Timer.Destroyed.{CallOk}
use coroutine_transaction.Timer.Phases.{steady, moved_sec, next_s, Linked-turned, sec_turn}
use coroutine_transaction.Timer.Turns.{
  InPhase, Ready, next_cur-sec, At-to_ℕ, turn-InPhase, fire_hour-Ready,
}

module _ (script : ℕ → ℕ → List Call) {t c : ℕ} (small : c < u32_mod) (above : c * u32_mod ≤ t)
    (room : suc t + max_timeout < limit c)
    (ok : (i : ℕ) → All (CallOk c (suc t)) (script (suc t) i)) where
  sec_end :
      (s h d : ℕ) {m : TimerMgr}
      → 1 ≤ s
      → InPhase (moved_sec (suc t) s h d) c m
      → Ready c
          (suc t)
          (if suc (cur_slot sec m) == wheel_size sec then fire_hour script (suc t) m else m)
  sec_end s h d {m} b i =
      rw (At-to_ℕ (m.cur sec) s i.synced.at_sec b i.synced.s_le).1 (elim (ℕ-cases s 1000) [
        | inl e ↦ rw e (
            fire_hour-Ready script small (omega arith) room ok h d
              (subst (λ k. InPhase (moved_sec (suc t) k h d) c m) e i))
        | inr e ↦ rw (==-ne s 1000 e) (
          s,
          h,
          d,
          subst (λ p. InPhase p c m)
              (let q : 1000 - s ≡ 1000 - s % 1000 = omega (arith, i.synced.s_le) in ground arith) i,
        )
      ])

  fire_sec :
      (s h d : ℕ) {m : TimerMgr}
      → InPhase (steady t s h d) c m
      → InPhase
          (moved_sec (suc t) (next_s s) h d)
          c
          (fire_list script sec (suc t) (advance sec (record m { lasttick = suc t })))
  unfolding advance
  fire_sec s h d {m} i =
      let y = i.synced in
      let at = next_cur-sec (m.cur sec) s y.at_sec y.s_le in
      turn-InPhase script sec (steady t s h d) (moved_sec (suc t) (next_s s) h d)
        {m = record m { lasttick = suc t }}
        (record { small = small; above = omega arith; room = room }) tt ok
        (sec_turn t s h d c y.s_le) (Linked-turned m.cur (suc t) (λ _ _ _ g. g) i.linked) i.timely
        (record {
          ticking = y.ticking;
          at_tick = refl;
          at_sec = at;
          at_hour = y.at_hour;
          at_day = y.at_day;
          s_le = ground (arith, y.s_le);
          h_lt = y.h_lt;
          d_lt = y.d_lt;
          to_hour_le = omega arith;
          to_day_le = ground (arith, y.s_le);
        })
        (At-to_ℕ (next_cur sec (m.cur sec)) (next_s s) at (ground arith) (ground (arith, y.s_le))).0

  tick_once-Ready : {m : TimerMgr} → Ready c t m → Ready c (suc t) (tick_once script m)
  unfolding tick_once fire
  tick_once-Ready {m} (s, h, d, i) =
      rw i.synced.at_tick (sec_end (next_s s) h d (ground arith) (fire_sec s h d i))

-- Every callback that runs at a tick of the window reads a clock within the window.
abbrev pub ScriptOk : ℕ → (ℕ → ℕ → List Call) → Type 0
ScriptOk c script = (t i : ℕ) → t + max_timeout < limit c → All (CallOk c t) (script t i)

module _ (script : ℕ → ℕ → List Call) {c now : ℕ} (small : c < u32_mod)
    (room : now + max_timeout < limit c) (ok : ScriptOk c script) where
  ticks-Ready :
      (n t : ℕ) {m : TimerMgr}
      → c * u32_mod ≤ t
      → t + n ≡ now
      → Ready c t m
      → Ready c now (ticks script n m)
  unfolding ticks
  ticks-Ready zero t {m} above e r = subst (λ k. Ready c k m) (let q : t ≡ now = omega arith in q) r
  ticks-Ready (suc n) t above e r =
      ticks-Ready n (suc t) (omega arith) (omega arith)
        (tick_once-Ready script small above (omega arith) (λ i. ok (suc t) i (omega arith)) r)

  proc-ticks :
      (m : TimerMgr)
      → m.ticking ≡ true
      → m.lasttick ≤ now
      → proc script now m ≡ ticks script (now - m.lasttick) m
  unfolding proc
  proc-ticks m e le = let b : ltb now m.lasttick ≡ false = ground arith in simp (e, b)

  -- Proc brings a manager that is ready to the present.
  pub proc-Ready :
      {m : TimerMgr}
      → c * u32_mod ≤ m.lasttick
      → m.lasttick ≤ now
      → Ready c m.lasttick m
      → Ready c now (proc script now m)
  proc-Ready {m} above le (s, h, d, i) =
      subst (Ready c now) (sym (proc-ticks m i.synced.ticking le))
        (ticks-Ready (now - m.lasttick) m.lasttick above (omega arith) (s, h, d, i))
