-- ===== src/Server.antt =====
-- The transaction server: src/transaction/transaction_server.cpp, transaction_mgr.cpp, and the parts
-- of transaction.cpp and transaction_instance.cpp that use the scheduler and the timers.
-- A `TransactionInstance*` is the instance's id. The stack of a work coroutine that waits is a value,
-- the command at which it stands and the events that are left; what it does when it is entered is
-- computed from there. Clock readings, the ids of GenGUID and whether memory is found are arguments.
pub mod Calls
mod Kept
mod Entered
pub mod Idle
mod Outcomes
mod Segment
pub mod Sends
mod Starts
mod Updates
pub mod Steps
pub mod Init
pub mod Resume
pub mod Create
pub mod Answers
pub mod Freed
use coroutine_transaction.Base.{
  ℕ, zero, suc, Bool, true, false, not, ◌&&◌, ◌||◌, Option, none, some, List, [], ◌∷◌, ◌++◌, ℤ, pos,
  negsuc, is_zero, is_pos, eq_ℤ, to_ℕ, ltb, ◌==◌, if◌then◌else◌, length, get_elem?, drop,
}
use coroutine_transaction.Coroutine.{
  Scheduler, create_work_routine, destroy_work_routine, swap_to_main, swap_to_work_routine,
  on_work_routine_exit, is_in_coroutine,
}
use coroutine_transaction.Timer.{TimerMgr}
use coroutine_transaction.Timer.Register.{Request, register_timer, destroy_timer}
use coroutine_transaction.Transaction.{
  Instance, World, Command, Transaction, call_code, handle_result, error_logic, error_svr_internal,
  error_invalid_para,
}
use coroutine_transaction.Transaction.Wait.{
  Answer, fails, delivers, Progress, waiting, returned, wait_for_event, is_awaited, event_timeout,
  event_abort,
}
use coroutine_transaction.Transaction.Run.{
  Run, parked, ended, is_failed, is_empty, after_command, run_commands, command_wait,
}

abbrev pub error_resource_unavailable : ℤ
error_resource_unavailable = pos 20

abbrev pub error_duplicated_operation : ℤ
error_duplicated_operation = pos 409

abbrev pub error_tran_inst_not_found : ℤ
error_tran_inst_not_found = pos 1001

abbrev pub max_event_count : ℕ
max_event_count = 10

abbrev pub transaction_on_timeout_id : ℕ
transaction_on_timeout_id = 1

-- Where the stack of a waiting coroutine stands; `is_resume` is whether it is in the Wait of
-- Transaction::RealResume.
pub record Park : Type 0 where
  pub is_resume : Bool
  pub index : ℕ
  pub events : List ℕ

-- TransactionServer with its scheduler, its timers and the two collections of TranInstMgr. `parks`
-- are the stacks of the coroutines that wait; the list of those that have ended is in the order in
-- which they ended, where the source's set goes by addresses; and `user` is the state of the user's code.
pub record Server (U : Type 0) : Type 0 where
  pub scheduler : Scheduler
  pub timers : TimerMgr
  pub trans_map : ℕ → Option Instance
  pub destroy_list : List Instance
  pub parks : ℕ → Option Park
  pub user : U

-- What the environment answers while one call of the server runs.
pub record Env : Type 0 where
  pub now : ℕ
  pub timer_id : ℕ
  pub coroutine_id : ℕ
  pub mem : Bool

-- The timer of TransactionInstance::Wait.
abbrev pub wait_request : ℤ → Instance → Request
wait_request timeout_ms inst = record {
  timeout = to_ℕ timeout_ms;
  interval = to_ℕ timeout_ms;
  repeats = pos 1;
  func_id = pos transaction_on_timeout_id;
  user_data = some inst.id;
  data_len = 8;
}

-- `set_is_complete(true)` at the end of Transaction::RealStart.
abbrev pub completed : Instance → Instance
completed inst =
    if not (is_failed inst) && not inst.is_complete
    then record inst { is_complete = true }
    else inst

module _ {U : Type 0} where
  abbrev pub set_inst : ℕ → Option Instance → Server U → Server U
  set_inst id oi s = record s { trans_map = λ j. if j == id then oi else s.trans_map j }

  abbrev pub set_park : ℕ → Option Park → Server U → Server U
  set_park co op s = record s { parks = λ j. if j == co then op else s.parks j }

  -- TranInstMgr::AddTranInst.
  unfoldable pub add_tran_inst : Instance → Server U → Server U × ℤ
  add_tran_inst inst s =
      if inst.id == 0 then (s, error_invalid_para) else elim (s.trans_map inst.id) [
        | some _ ↦ (s, error_duplicated_operation)
        | none ↦ (set_inst inst.id (some inst) s, pos 0)
      ]

  -- TranInstMgr::MarkTranInstDelayDestroy.
  unfoldable pub mark_delay_destroy : Instance → Server U → Server U × ℤ
  mark_delay_destroy inst s =
      if inst.is_delay_destroying
      then (s, error_duplicated_operation)
      else let marked = record inst { is_delay_destroying = true } in
        let s' = record s { destroy_list = s.destroy_list ++ (marked ∷ []) } in
        elim (s.trans_map inst.id) [
          | none ↦ (s', error_logic)
          | some _ ↦ (set_inst inst.id none s', pos 0)
        ]

  -- The call of SwapToMain in TransactionInstance::Wait.
  abbrev pub wait_swap : Instance → Server U → Instance × Server U × ℤ
  wait_swap inst s =
      let (scheduler, ret) = swap_to_main s.scheduler in
      (inst, record s { scheduler = scheduler }, ret)

  -- TransactionInstance::Wait, up to the point where the main coroutine runs on.
  unfoldable pub instance_wait : Env → List ℕ → ℤ → Instance → Server U → Instance × Server U × ℤ
  instance_wait env events timeout_ms inst s =
      if (is_empty events || not (is_pos timeout_ms)) || ltb max_event_count (length events)
      then (inst, s, error_invalid_para)
      else if not (inst.timer_id == 0)
      then wait_swap inst s
      else let (timers, timer_id) =
          register_timer env.now env.timer_id (wait_request timeout_ms inst) s.timers in
        let s' = record s { timers = timers } in
        if timer_id == 0
        then (inst, s', error_resource_unavailable)
        else wait_swap
            (record inst { timer_id = timer_id; waiting_index = inst.curr_index; events = events })
            s'

  -- The coroutine's last steps: the instance is marked, and the entry returns.
  pub leave : Instance → U → Server U → Server U
  unfolding mark_delay_destroy
  leave inst user s =
      let (s', _) = mark_delay_destroy inst (record s { user = user }) in
      record s' { scheduler = (on_work_routine_exit s'.scheduler).0 }

  -- The end of Transaction::RealStart and of the entry of the coroutine.
  unfoldable pub finish : World U → Server U → Server U
  unfolding leave
  finish w s = leave (completed w.inst) w.user s

  -- A coroutine whose Wait failed runs to its end.
  abbrev pub finish_run : Run U → Server U → Server U
  finish_run (parked _ _ _) s = s
  finish_run (ended w _) s = finish w s

  -- What follows the Wait of RealResume or of a command: `rest` is the run of the commands after it.
  abbrev pub after_wait : Bool → ℕ → ℤ → List Answer → World U → Run U → Run U
  after_wait true i code answers w rest =
      if not (is_zero code)
      then ended (record w { inst = record (w.inst) { fail_index = pos i; fail_reason = code } })
          answers
      else rest
  after_wait false i code answers w rest = after_command i code answers w rest

module _ {U : Type 0} (tr : Transaction U) where
  -- The return of Wait at the command `i`, and the commands after it.
  unfoldable pub resume_at : Bool → ℕ → List ℕ → Answer → World U → Bool × Run U
  resume_at is_resume i events answer w = elim (get_elem? tr.cmds i) [
    | none ↦ (false, ended w [])
    | some cmd ↦ elim (wait_for_event (some tr) cmd events (answer ∷ []) w) [
      | waiting w' left ↦ (is_resume, parked i left w')
      | returned w' code rest ↦ (
        false,
        after_wait is_resume i code rest w'
            (run_commands (some tr) (drop (suc i) tr.cmds) (suc i) rest w'),
      )
    ]
  ]

  -- Transaction::RealStart, up to its end.
  unfoldable pub real_start : World U → Run U
  real_start w =
      let (w', ret) = call_code tr.on_start w in
      if not (is_zero ret)
      then ended (record w' { inst = record (w'.inst) { fail_reason = error_svr_internal } }) []
      else run_commands (some tr) tr.cmds 0 [] w'

  -- Transaction::RealResume from its test of the size on. The index is converted to size_t there, so that
  -- a negative one is refused as well.
  unfoldable pub resume_index : ℤ → World U → Run U
  resume_index (negsuc _) w = ended w []
  resume_index (pos i) w = elim (get_elem? tr.cmds i) [
    | none ↦ ended w []
    | some cmd ↦ elim (command_wait (some tr) cmd [] w) [
      | waiting w' left ↦ parked i left w'
      | returned w' code rest ↦
          after_wait true i code rest w'
            (run_commands (some tr) (drop (suc i) tr.cmds) (suc i) rest w')
    ]
  ]

  -- Transaction::RealResume, up to its end.
  unfoldable pub real_resume : World U → Run U
  unfolding resume_index
  real_resume w =
      if not (eq_ℤ w.inst.waiting_index w.inst.curr_index)
      then ended (record w { inst = record (w.inst) { fail_index = w.inst.curr_index } }) []
      else resume_index w.inst.waiting_index w

  -- The coroutine at the end of a run: it waits, or its Wait fails, or it ends.
  unfoldable pub run_on : Env → Bool × Run U → Server U → Server U
  unfolding instance_wait resume_at
  run_on env (is_resume, ended w _) s = finish w s
  run_on env (is_resume, parked i events w) s = elim (get_elem? tr.cmds i) [
    | none ↦ s
    | some cmd ↦
        let (inst, s', ret) = instance_wait env events cmd.timeout_ms w.inst s in
        if is_zero ret
        then set_park inst.coroutine_id
            (some (record { is_resume = is_resume; index = i; events = events }))
            (set_inst inst.id (some inst) (record s' { user = w.user }))
        else finish_run (resume_at is_resume i events fails (record w { inst = inst })).1 s'
  ]
