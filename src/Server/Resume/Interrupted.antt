-- ===== src/Server/Resume/Interrupted.antt =====
-- A transaction that a crash interrupted before its coroutine was entered: TransactionInstance::Resume
-- (src/transaction/transaction_instance.cpp), Transaction::RealResume and HandleResult (transaction.cpp).
use coroutine_transaction.Base.{
  ℕ, ℤ, Option, some, none, ap, sym, ◌∙◌, ◌≢◌, ◌++◌, ◌∷◌, ==-ne, ==-self, ◌≡◌, refl, true, false,
  [], pos, negsuc, eq_ℤ, arith,
}
use coroutine_transaction.Transaction.{Instance, World, Transaction, call, handle_result}
use coroutine_transaction.Transaction.Run.{ended}
use coroutine_transaction.Server.{Server, Env, completed, real_resume, resume_index, run_on, finish}
use coroutine_transaction.Server.Calls.{entry, tell_result}
use coroutine_transaction.Server.Outcomes.{completed-Same, ended_at, leave-ended}
use coroutine_transaction.Server.Resume.{
  resume_instance, resume_transaction, resume_restarted, resume_swapped,
}
use coroutine_transaction.Coroutine.{
  Coroutine, Scheduler, restart_coroutine, ready, dead, set_coroutine, on_work_routine_exit,
}
use coroutine_transaction.Coroutine.Valid.{Valid}
use coroutine_transaction.Coroutine.Swap.{
  set_same, entered, entered-Valid, swap_to_work_routine-entered, left, id_ne_zero,
}
use coroutine_transaction.Coroutine.Restart.{restart_coroutine-ready}
use coroutine_transaction.Coroutine.Life.{on_work_routine_exit-left}

completed-is_complete :
    (inst : Instance) → inst.fail_reason ≡ pos 0 → (completed inst).is_complete ≡ true
completed-is_complete inst ok = grind arith

module _ {U : Type 0} (tr : Transaction U) where
  handle_result_complete :
      (w : World U)
      → w.inst.is_complete ≡ true
      → handle_result tr false w ≡ call tr.finally (call tr.on_success w)
  unfolding handle_result
  handle_result_complete w e = simp (e)

  real_resume-unstarted :
      (w : World U)
      → w.inst.waiting_index ≡ negsuc 0
      → w.inst.curr_index ≡ negsuc 0
      → real_resume tr w ≡ ended w []
  unfolding real_resume resume_index
  real_resume-unstarted w z c =
      let same : eq_ℤ w.inst.waiting_index w.inst.curr_index ≡ true = rw (z, c) refl in
      rw (same, real_resume, z) refl

module _ {U : Type 0} (tran_of : ℕ → Option (Transaction U)) where
  -- The coroutine of the instance ends where it is entered.
  entry-ended :
      (env : Env) (inst : Instance) (tr : Transaction U) (s : Server U)
      → inst.id ≢ 0
      → s.trans_map inst.id ≡ some inst
      → tran_of inst.type ≡ some tr
      → inst.is_delay_destroying ≡ false
      → inst.waiting_index ≡ negsuc 0
      → inst.curr_index ≡ negsuc 0
      → entry tran_of env true inst.id s
        ≡ ended_at (completed inst) s.user (on_work_routine_exit s.scheduler).0 s
  unfolding entry run_on finish
  entry-ended env inst tr s n e g d z c =
      let w : World U = record { inst = inst; user = s.user } in
      let (same_id, _, _, same_mark) = completed-Same inst in
      rw (==-ne inst.id 0 n, entry, e, g, real_resume-unstarted tr w z c)
        (leave-ended (completed inst) inst s.user s (same_mark ∙ d) (ap s.trans_map same_id ∙ e))

  -- A transaction of the map that has not failed and whose coroutine is ready, as when the process crashed
  -- after CreateWorkRoutine and before SwapToWorkRoutine, so that it has come to none of its commands, is
  -- not carried out when it is resumed: TransactionInstance::Resume returns 0, runs no code of the user
  -- and moves the instance from the map to those that Update releases, and Update's HandleResult then
  -- calls OnSuccess and Finally. The main coroutine runs, and there is memory for a stack.
  pub interrupted-reported :
      (env : Env) (inst : Instance) (tr : Transaction U) (co : Coroutine) (s : Server U)
      → Valid s.scheduler
      → s.scheduler.curr ≡ 0
      → env.mem ≡ true
      → inst.id ≢ 0
      → s.trans_map inst.id ≡ some inst
      → tran_of inst.type ≡ some tr
      → s.scheduler.coroutines inst.coroutine_id ≡ some co
      → co.state ≡ ready
      → inst.is_delay_destroying ≡ false
      → inst.fail_reason ≡ pos 0
      → inst.waiting_index ≡ negsuc 0
      → inst.curr_index ≡ negsuc 0
      → let r = resume_instance tran_of env inst s in
        let over = record (completed inst) { is_delay_destroying = true } in
        let w : World U = record { inst = record over { coroutine_id = 0 }; user = s.user } in
        (r.1 ≡ pos 0)
        × (r.0.user ≡ s.user)
        × (r.0.trans_map inst.id ≡ none)
        × (r.0.destroy_list ≡ s.destroy_list ++ (over ∷ []))
        × ((tell_result tran_of over r.0).user ≡ (call tr.finally (call tr.on_success w)).user)
  unfolding resume_instance resume_transaction resume_restarted tell_result
  interrupted-reported env inst tr co s v at_main mem n e g f q d ok z c =
      let k = inst.coroutine_id in
      let (new, x, v', q') =
        restart_coroutine-ready env.mem k 2 inst.id s.scheduler co v at_main mem f q in
      let sch = set_coroutine k (some new) s.scheduler in
      let there = set_same k (some new) s.scheduler in
      let swapped = swap_to_work_routine-entered sch k new v' at_main there (rw q' refl) in
      let t : Server U = record s { scheduler = entered k new sch } in
      let v'' = entered-Valid sch k new v' at_main there in
      let inside : t.scheduler.curr ≢ 0 =
        λ u. id_ne_zero v' there (sym (v'.entries k new there).same_id ∙ u) in
      let (last, _, exit) = on_work_routine_exit-left t.scheduler v'' inside in
      let (same_id, _, same_type, _) = completed-Same inst in
      let out = ended_at (completed inst) s.user (left dead last t.scheduler) t in
      let known : resume_instance tran_of env inst s
          ≡ resume_restarted tran_of env inst s
              (restart_coroutine env.mem k 2 inst.id s.scheduler) =
        rw (g, resume_instance) refl in
      let resumed : resume_instance tran_of env inst s ≡ (out, pos 0) =
        known
        ∙ ap (resume_restarted tran_of env inst s) x
        ∙ ap (resume_swapped tran_of env inst (record s { scheduler = sch })) swapped
        ∙ ap (λ (y : Server U). (y, pos 0)) (entry-ended env inst tr t n e g d z c)
        ∙ ap (λ (y : Scheduler × ℤ). (ended_at (completed inst) s.user y.0 t, pos 0)) exit in
      let over : Instance = record (completed inst) { is_delay_destroying = true } in
      let w : World U = record { inst = record over { coroutine_id = 0 }; user = s.user } in
      let told : (tell_result tran_of over out).user
          ≡ (call tr.finally (call tr.on_success w)).user =
        rw (ap tran_of same_type ∙ g, tell_result)
          (ap (λ (y : World U). y.user)
            (handle_result_complete tr w (completed-is_complete inst ok))) in
      rw resumed (refl, refl, rw (same_id, ==-self inst.id) refl, refl, told)
