-- ===== src/Server/Calls.antt =====
-- The calls of the transaction server: TransactionServer::StartTransaction and SendMsgEventToTran
-- (src/transaction/transaction_server.cpp), Transaction::Start and its coroutine entry
-- (transaction.cpp), TransactionInstance::SendMsgEvent, Abort and TransactionOnTimeout
-- (transaction_instance.cpp), TranInstMgr::Update (transaction_mgr.cpp).
use coroutine_transaction.Base.{
  ℕ, Bool, false, not, ◌&&◌, ◌||◌, Option, none, some, List, [], ◌∷◌, ℤ, pos, is_zero, ◌==◌,
  if◌then◌else◌,
}
use coroutine_transaction.Coroutine.{
  Scheduler, create_work_routine, destroy_work_routine, swap_to_work_routine, is_in_coroutine,
}
use coroutine_transaction.Timer.Register.{destroy_timer}
use coroutine_transaction.Transaction.{
  Instance, World, Transaction, handle_result, error_logic, error_svr_internal, error_invalid_para,
}
use coroutine_transaction.Transaction.Wait.{delivers, is_awaited, event_timeout, event_abort}
use coroutine_transaction.Server.{
  Server, Env, set_inst, set_park, add_tran_inst, run_on, real_start, real_resume, resume_at,
  error_tran_inst_not_found,
}

-- IsDefaultEvent.
abbrev pub is_default_event : ℕ → Bool
is_default_event v = v == event_timeout || v == event_abort

-- The event is none of those that the instance waits for.
abbrev pub is_refused : ℕ → Instance → Bool
is_refused v inst = not (is_default_event v) && not (is_awaited v inst.events)

-- The timer of the wait that an event ends.
abbrev pub stop_timer : {U : Type 0} → ℕ → Instance → Server U → Server U
stop_timer v inst s =
    if not (v == event_timeout) && not (inst.timer_id == 0)
    then record s { timers = (destroy_timer inst.timer_id s.timers).0 }
    else s

-- The coroutine of an instance that has ended.
unfoldable pub free_coroutine : {U : Type 0} → ℕ → Server U → Server U
free_coroutine co s =
    if co == 0
    then s
    else set_park co none (record s { scheduler = (destroy_work_routine co s.scheduler).0 })

-- `tran_of` is the virtual GetTranByType.
module _ {U : Type 0} (tran_of : ℕ → Option (Transaction U)) where
  -- Transaction::TransactionCoroutineEntry on the parameter `id`.
  unfoldable pub entry : Env → Bool → ℕ → Server U → Server U
  unfolding run_on real_start real_resume
  entry env is_resume id s = if id == 0 then s else elim (s.trans_map id) [
    | none ↦ s
    | some inst ↦ elim (tran_of inst.type) [
      | none ↦ s
      | some tr ↦
          let w : World U = record { inst = inst; user = s.user } in
          run_on tr env (is_resume, if is_resume then real_resume tr w else real_start tr w) s
    ]
  ]

  -- The end of Transaction::Start, on what SwapToWorkRoutine leaves and returns.
  abbrev pub start_swapped : Env → ℕ → Instance → Server U → Scheduler × ℤ → Server U × ℤ
  start_swapped env co inst s (scheduler, ret) =
      if not (is_zero ret)
      then (
        set_inst inst.id (some (record inst { coroutine_id = 0 }))
            (record s { scheduler = (destroy_work_routine co scheduler).0 }),
        ret,
      )
      else (entry env false inst.id (record s { scheduler = scheduler }), pos 0)

  -- Transaction::Start once its coroutine `co` is made.
  unfoldable pub start_on : Env → ℕ → Instance → Server U → Server U × ℤ
  unfolding entry
  start_on env co inst s =
      let s1 = set_inst inst.id (some (record inst { coroutine_id = co })) s in
      start_swapped env co inst s1 (swap_to_work_routine co s1.scheduler)

  -- What Transaction::Start does with what CreateWorkRoutine leaves and returns.
  abbrev pub start_made : Env → Instance → Server U → Scheduler × ℤ × Option ℕ → Server U × ℤ
  start_made env inst s (scheduler, ret, none) = (record s { scheduler = scheduler }, ret)
  start_made env inst s (scheduler, ret, some co) =
      start_on env co inst (record s { scheduler = scheduler })

  -- Transaction::Start; 1 stands for its entry.
  unfoldable pub start : Env → Instance → Server U → Server U × ℤ
  unfolding start_on
  start env inst s =
      if not (inst.coroutine_id == 0)
      then (s, error_logic)
      else start_made env inst s
          (create_work_routine env.mem env.coroutine_id inst.stack_size 1 inst.id s.scheduler)

  -- An instance that could not start leaves the map.
  abbrev pub keep_started : ℕ → Server U × ℤ → Server U × ℤ
  keep_started id (s, code) = if is_zero code then (s, code) else (set_inst id none s, code)

  -- TransactionServer::StartTransaction.
  unfoldable pub start_transaction : Env → Instance → Server U → Server U × ℤ
  unfolding start add_tran_inst
  start_transaction env inst s = elim (tran_of inst.type) [
    | none ↦ (s, error_logic)
    | some _ ↦
        let (s1, ret) = add_tran_inst inst s in
        if not (is_zero ret)
        then (s1, error_svr_internal)
        else keep_started inst.id (start env inst s1)
  ]

  -- The coroutine of the instance runs on with the event.
  unfoldable pub wake : Env → ℕ → Instance → Server U → Server U
  unfolding run_on resume_at
  wake env v inst s = elim (s.parks inst.coroutine_id) [
    | none ↦ s
    | some park ↦ elim (tran_of inst.type) [
      | none ↦ s
      | some tr ↦
          run_on tr env
            (resume_at tr park.is_resume park.index park.events (delivers v)
              (record { inst = inst; user = s.user }))
            s
    ]
  ]

  -- TransactionInstance::SendMsgEvent.
  unfoldable pub send_msg_event : Env → ℕ → Instance → Server U → Server U × ℤ
  unfolding wake
  send_msg_event env v inst s =
      if v == 0
      then (s, error_invalid_para)
      else let idle = record inst { timer_id = 0 } in
        let s1 = set_inst inst.id (some idle) (stop_timer v inst s) in
        if is_refused v inst
        then (s1, error_logic)
        else let told = record idle { event_type = v } in
          let (scheduler, ret) = swap_to_work_routine inst.coroutine_id s1.scheduler in
          let s2 = set_inst inst.id (some told) (record s1 { scheduler = scheduler }) in
          if not (is_zero ret) then (s2, ret) else (wake env v told s2, pos 0)

  -- TransactionServer::SendMsgEventToTran.
  unfoldable pub send_msg_event_to_tran : Env → ℕ → ℕ → Server U → Server U × ℤ
  unfolding send_msg_event
  send_msg_event_to_tran env id v s =
      if id == 0 then (s, error_invalid_para) else elim (s.trans_map id) [
        | none ↦ (s, error_tran_inst_not_found)
        | some inst ↦
            let (s', ret) = send_msg_event env v inst s in
            (s', if is_zero ret then pos 0 else error_svr_internal)
      ]

  -- TransactionInstance::TransactionOnTimeout, on the id in the timer's data.
  unfoldable pub transaction_on_timeout : Env → ℕ → Server U → Server U
  unfolding send_msg_event
  transaction_on_timeout env id s = elim (s.trans_map id) [
    | none ↦ s
    | some inst ↦ (send_msg_event env event_timeout inst s).0
  ]

  -- TransactionInstance::Abort.
  pub abort : Env → Instance → Server U → Server U × ℤ
  unfolding send_msg_event
  abort env inst s = send_msg_event env event_abort inst s

  -- HandleResult of an instance, whose coroutine id is 0 by then.
  unfoldable pub tell_result : Instance → Server U → Server U
  tell_result inst s = elim (tran_of inst.type) [
    | none ↦ s
    | some tr ↦
        let freed = record inst { coroutine_id = 0 } in
        let w =
          handle_result tr (is_in_coroutine s.scheduler) (record { inst = freed; user = s.user }) in
        record s { user = w.user }
  ]

  -- One round of TranInstMgr::Update; the instance is released after it.
  unfoldable pub update_one : Instance → Server U → Server U
  unfolding tell_result
  update_one inst s = tell_result inst (free_coroutine inst.coroutine_id s)

  unfoldable pub update_all : List Instance → Server U → Server U
  unfolding update_one
  update_all [] s = s
  update_all (inst ∷ insts) s = update_all insts (update_one inst s)

  -- TranInstMgr::Update.
  unfoldable pub update : Server U → Server U
  unfolding update_all
  update s = let s' = update_all s.destroy_list s in record s' { destroy_list = [] }
