-- ===== src/Coroutine/Restart.antt =====
-- A coroutine that is prepared anew: CoroutineScheduler::RestartCoroutine.
use mathlib.Core.Path.{subst}
use coroutine_transaction.Base.{
  ap, ℕ, ◌≡◌, ◌≢◌, ◌∙◌, refl, sym, ◌⊎◌, inl, inr, Bool, true, false, some, ℤ, pos, is_zero, ℕ-cases,
}
use coroutine_transaction.Coroutine.{
  Coroutine, Scheduler, run, ready, suspend, uninit, set_coroutine, restart_work, restart_coroutine,
  prepare,
}
use coroutine_transaction.Coroutine.Valid.{Entry, Valid}
use coroutine_transaction.Coroutine.Swap.{set_same, set_other, id_ne_zero}

-- What RestartWorkRoutine does with a suspended coroutine: it is ready, or there is no memory.
restart_work-suspended :
    (mem : Bool) (entry param : ℕ) (co : Coroutine)
    → co.is_main ≡ false
    → co.state ≡ suspend
    → let r = restart_work mem entry param co in
      (r.0.id ≡ co.id)
      × (r.0.is_main ≡ false)
      × (((r.0.state ≡ ready) × (r.1 ≡ pos 0)) ⊎ ((r.0.state ≡ suspend) × (is_zero r.1 ≡ false)))
unfolding restart_work prepare
restart_work-suspended true entry param co m s = rw (m, s) (refl, refl, inl (refl, refl))
restart_work-suspended false entry param co m s = rw (m, s) (refl, refl, inr (refl, refl))

-- A coroutine of the map that does not run, replaced by one that does not run either.
replaced-Valid :
    (s : Scheduler) (id : ℕ) (co new : Coroutine)
    → Valid s
    → s.curr ≡ 0
    → s.coroutines id ≡ some co
    → new.id ≡ co.id
    → new.is_main ≡ false
    → new.state ≢ uninit
    → new.state ≢ run
    → Valid (set_coroutine id (some new) s)
replaced-Valid s id co new v z e i m u r =
    let nz = id_ne_zero v e in
    record {
      main_kind = v.main_kind;
      main_run = v.main_run;
      main_suspend = v.main_suspend;
      no_zero = set_other id _ s 0 (λ q. nz (sym q)) ∙ v.no_zero;
      entries = λ j b f. elim (ℕ-cases j id) [
        | inl q ↦
            let w : new ≡ b = cc (f, q, set_same id (some new) s) in
            subst (Entry (set_coroutine id (some new) s) j) w (record {
              same_id = i ∙ ((v.entries id co e).same_id ∙ sym q);
              not_main = m;
              started = u;
              running = λ c. absurd (nz (sym q ∙ (sym c ∙ z)));
              resting = λ _. r;
            })
        | inr q ↦
            let o = v.entries j b (sym (set_other id (some new) s j q) ∙ f) in
            record {
              same_id = o.same_id;
              not_main = o.not_main;
              started = o.started;
              running = o.running;
              resting = o.resting;
            }
      ];
      current = λ n. absurd (n z);
    }

-- A suspended coroutine that is restarted is ready, or suspended still, and the others are as before.
pub restart_coroutine-outcome :
    (mem : Bool) (id entry param : ℕ) (s : Scheduler) (co : Coroutine)
    → Valid s
    → s.curr ≡ 0
    → s.coroutines id ≡ some co
    → co.state ≡ suspend
    → (new : Coroutine) × (code : ℤ) × (restart_coroutine mem id entry param s
        ≡ (set_coroutine id (some new) s, code))
      × Valid (set_coroutine id (some new) s)
      × (((new.state ≡ ready) × (code ≡ pos 0)) ⊎ ((new.state ≡ suspend) × (is_zero code ≡ false)))
unfolding restart_coroutine
restart_coroutine-outcome mem id entry param s co v z e q =
    let r = restart_work mem entry param co in
    let (i, m, o) = restart_work-suspended mem entry param co (v.entries id co e).not_main q in
    (
      r.0,
      r.1,
      rw (e, restart_coroutine) refl,
      replaced-Valid s id co r.0 v z e i m
          (λ u. elim o [ inl (x, _) ↦ cc (x, u) | inr (x, _) ↦ cc (x, u) ])
          (λ u. elim o [ inl (x, _) ↦ cc (x, u) | inr (x, _) ↦ cc (x, u) ]),
      o,
    )

-- A coroutine that is ready is ready still, if there is memory for its stack.
restart_work-ready :
    (mem : Bool) (entry param : ℕ) (co : Coroutine)
    → mem ≡ true
    → co.is_main ≡ false
    → co.state ≡ ready
    → let r = restart_work mem entry param co in
      (r.0.id ≡ co.id) × (r.0.is_main ≡ false) × (r.0.state ≡ ready) × (r.1 ≡ pos 0)
unfolding restart_work prepare
restart_work-ready mem entry param co a m s = rw (a, m, s) (refl, refl, refl, refl)

pub restart_coroutine-ready :
    (mem : Bool) (id entry param : ℕ) (s : Scheduler) (co : Coroutine)
    → Valid s
    → s.curr ≡ 0
    → mem ≡ true
    → s.coroutines id ≡ some co
    → co.state ≡ ready
    → (new : Coroutine) × (restart_coroutine mem id entry param s
        ≡ (set_coroutine id (some new) s, pos 0))
      × Valid (set_coroutine id (some new) s)
      × (new.state ≡ ready)
unfolding restart_coroutine
restart_coroutine-ready mem id entry param s co v z a e q =
    let r = restart_work mem entry param co in
    let (i, m, o, c) = restart_work-ready mem entry param co a (v.entries id co e).not_main q in
    (
      r.0,
      rw (e, restart_coroutine) (ap (λ (k : ℤ). (set_coroutine id (some r.0) s, k)) c),
      replaced-Valid s id co r.0 v z e i m (λ u. cc (o, u)) (λ u. cc (o, u)),
      o,
    )
