-- ===== src/Server/Outcomes.antt =====
-- What the end of a coroutine and a wait of its instance do.
use coroutine_transaction.Base.{
  ℕ, ◌≡◌, ◌≢◌, refl, ◌⊎◌, inl, inr, true, false, not, ◌&&◌, ◌||◌, none, some, List, [], ◌∷◌, ◌++◌,
  ℤ, pos, is_zero, is_pos, ltb, length, ◌==◌, Bool-cases,
}
use coroutine_transaction.Coroutine.{Coroutine, Scheduler, suspend, on_work_routine_exit}
use coroutine_transaction.Coroutine.Valid.{Valid}
use coroutine_transaction.Coroutine.Swap.{left, swap_to_main-left}
use coroutine_transaction.Timer.{TimerMgr}
use coroutine_transaction.Timer.Register.{register_timer}
use coroutine_transaction.Transaction.{Instance, error_invalid_para}
use coroutine_transaction.Transaction.Run.{is_failed, is_empty}
use coroutine_transaction.Server.{
  Server, Env, set_inst, mark_delay_destroy, completed, leave, wait_request, wait_swap,
  instance_wait, max_event_count, error_resource_unavailable,
}
use coroutine_transaction.Server.Kept.{Same}

pub completed-Same : (inst : Instance) → Same inst (completed inst)
completed-Same inst = elim (Bool-cases (not (is_failed inst) && not inst.is_complete)) [
  | inl b ↦ rw b (refl, refl, refl, refl)
  | inr b ↦ rw b (refl, refl, refl, refl)
]

module _ {U : Type 0} where
  -- The server once the instance has ended and the main coroutine runs.
  abbrev pub ended_at : Instance → U → Scheduler → Server U → Server U
  ended_at inst user scheduler s = record (set_inst inst.id none s) {
    user = user;
    destroy_list = s.destroy_list ++ (record inst { is_delay_destroying = true } ∷ []);
    scheduler = scheduler;
  }

  pub leave-ended :
      (inst old : Instance) (user : U) (s : Server U)
      → inst.is_delay_destroying ≡ false
      → s.trans_map inst.id ≡ some old
      → leave inst user s ≡ ended_at inst user (on_work_routine_exit s.scheduler).0 s
  unfolding leave mark_delay_destroy
  leave-ended inst old user s f e = rw (f, e) refl

  -- What TransactionInstance::Wait leaves in a work coroutine: it is suspended, or nothing but the
  -- timers has changed and there is an error.
  abbrev WaitOutcome : Instance → Server U → Instance × Server U × ℤ → Type 0
  WaitOutcome inst s r =
      ((new : Instance) × (timers : TimerMgr) × (co : Coroutine) × Same inst new
        × (s.scheduler.coroutines s.scheduler.curr ≡ some co)
        × (r ≡ (new, record s { timers = timers; scheduler = left suspend co s.scheduler }, pos 0)))
      ⊎ ((timers : TimerMgr) × (code : ℤ) × (is_zero code ≡ false)
          × (r ≡ (inst, record s { timers = timers }, code)))

  wait_swap-outcome :
      (inst new : Instance) (timers : TimerMgr) (s : Server U)
      → Valid s.scheduler
      → s.scheduler.curr ≢ 0
      → Same inst new
      → WaitOutcome inst s (wait_swap new (record s { timers = timers }))
  wait_swap-outcome inst new timers s v n same =
      let (co, e, f) = swap_to_main-left s.scheduler v n in
      inl (new, timers, co, same, e, rw f refl)

  pub instance_wait-outcome :
      (env : Env) (events : List ℕ) (timeout_ms : ℤ) (inst : Instance) (s : Server U)
      → Valid s.scheduler
      → s.scheduler.curr ≢ 0
      → WaitOutcome inst s (instance_wait env events timeout_ms inst s)
  unfolding instance_wait
  instance_wait-outcome env events timeout_ms inst s v n =
      let reg = register_timer env.now env.timer_id (wait_request timeout_ms inst) s.timers in
      elim (Bool-cases
        ((is_empty events || not (is_pos timeout_ms)) || ltb max_event_count (length events))) [
          | inl a ↦ inr (s.timers, error_invalid_para, refl, rw a refl)
          | inr a ↦ elim (Bool-cases (inst.timer_id == 0)) [
            | inr b ↦
                rw (a, b) (wait_swap-outcome inst inst s.timers s v n (refl, refl, refl, refl))
            | inl b ↦ elim (Bool-cases (reg.1 == 0)) [
              | inl c ↦ inr (reg.0, error_resource_unavailable, refl, rw (a, b, c) refl)
              | inr c ↦
                  rw (a, b, c)
                    (wait_swap-outcome inst
                      (record inst {
                        timer_id = reg.1;
                        waiting_index = inst.curr_index;
                        events = events;
                      })
                      reg.0 s v n (refl, refl, refl, refl))
            ]
          ]
        ]
