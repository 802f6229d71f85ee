-- ===== src/Server/Resume.antt =====
-- The server after a crash, when its state is kept in shared memory: Transaction::Resume
-- (src/transaction/transaction.cpp), TransactionInstance::Resume (transaction_instance.cpp) and
-- TranInstMgr::Resume (transaction_mgr.cpp). The stacks are lost, and each coroutine is entered anew.
pub mod Interrupted
pub mod Recovery
use coroutine_transaction.Base.{
  ℕ, Bool, true, Option, none, some, List, [], ◌∷◌, ℤ, pos, is_zero, if◌then◌else◌,
}
use coroutine_transaction.Coroutine.{Scheduler, restart_coroutine, swap_to_work_routine}
use coroutine_transaction.Transaction.{Instance, Transaction, error_svr_internal}
use coroutine_transaction.Server.{Server, Env, mark_delay_destroy}
use coroutine_transaction.Server.Calls.{entry}

module _ {U : Type 0} where
  -- Transaction::Resume, where the coroutine cannot be entered.
  pub resume_failed : ℤ → Instance → Server U → Server U × ℤ
  unfolding mark_delay_destroy
  resume_failed ret inst s =
      let failed = record inst { fail_index = inst.curr_index; fail_reason = ret } in
      ((mark_delay_destroy failed s).0, error_svr_internal)

module _ {U : Type 0} (tran_of : ℕ → Option (Transaction U)) where
  -- Transaction::Resume, on what SwapToWorkRoutine leaves and returns.
  abbrev pub resume_swapped : Env → Instance → Server U → Scheduler × ℤ → Server U × ℤ
  resume_swapped env inst s (scheduler, ret) =
      let s' = record s { scheduler = scheduler } in
      if is_zero ret then (entry tran_of env true inst.id s', pos 0) else resume_failed ret inst s'

  -- Transaction::Resume, on what RestartCoroutine leaves and returns.
  unfoldable pub resume_restarted : Env → Instance → Server U → Scheduler × ℤ → Server U × ℤ
  unfolding entry resume_failed
  resume_restarted env inst s (scheduler, ret) =
      let s' = record s { scheduler = scheduler } in
      if is_zero ret
      then resume_swapped env inst s' (swap_to_work_routine inst.coroutine_id scheduler)
      else resume_failed ret inst s'

  -- Transaction::Resume; 2 stands for its entry.
  unfoldable pub resume_transaction : Env → Instance → Server U → Server U × ℤ
  unfolding resume_restarted
  resume_transaction env inst s =
      resume_restarted env inst s
        (restart_coroutine env.mem inst.coroutine_id 2 inst.id s.scheduler)

  -- TransactionInstance::Resume.
  unfoldable pub resume_instance : Env → Instance → Server U → Server U × ℤ
  unfolding resume_transaction
  resume_instance env inst s = elim (tran_of inst.type) [
    | none ↦ (s, error_svr_internal)
    | some _ ↦ resume_transaction env inst s
  ]

  -- TranInstMgr::Resume, on the ids of the map with what the environment answers for each.
  unfoldable pub resume_all : List (Env × ℕ) → Server U → Server U
  unfolding resume_instance
  resume_all [] s = s
  resume_all ((env, id) ∷ ids) s = elim (s.trans_map id) [
    | none ↦ resume_all ids s
    | some inst ↦ resume_all ids (resume_instance env inst s).0
  ]
