-- ===== src/Tests/Server.antt =====
-- The server at a concrete transaction.
use coroutine_transaction.Base.{
  inl, ℕ, ◌≡◌, refl, none, some, true, inr, Option, List, [], ◌∷◌, pos, ◌==◌, if◌then◌else◌, All,
}
use coroutine_transaction.Coroutine.Valid.{Valid}
use coroutine_transaction.Coroutine.Made.{create_work_routine-Valid}
use coroutine_transaction.Coroutine.Life.{init-Valid}
use coroutine_transaction.Coroutine.{
  Coroutine, new_coroutine, ready, destroy_work_routine, on_work_routine_exit, init,
  create_work_routine, restart_coroutine, swap_to_main, swap_to_work_routine,
}
use coroutine_transaction.Timer.{reg, reg_sec, push, cal_remain, init as init_timers}
use coroutine_transaction.Timer.Register.{destroy_timer, register_timer}
use coroutine_transaction.Timer.History.{start as start_timers}
use coroutine_transaction.Transaction.{
  Instance, World, Transaction, call, handle_result, error_svr_internal,
}
use coroutine_transaction.Transaction.Wait.{wait_for_event}
use coroutine_transaction.Transaction.Run.{run_commands, do_and_wait, command_wait}
use coroutine_transaction.Server.{
  mark_delay_destroy, finish, Server, Env, set_inst, add_tran_inst, instance_wait, run_on,
  real_start, resume_at, resume_index, real_resume,
}
use coroutine_transaction.Server.Calls.{
  update_all, update_one, tell_result, free_coroutine, entry, start_on, start, start_transaction,
  send_msg_event_to_tran, update,
}
use coroutine_transaction.Server.Idle.{Idle}
use coroutine_transaction.Server.Steps.{
  new_server, Reachable, begins, calls, starts, sends, resumes, Reachable-Idle,
}
use coroutine_transaction.Server.Resume.{
  resume_restarted, resume_transaction, resume_instance, resume_all,
}
use coroutine_transaction.Server.Resume.Interrupted.{interrupted-reported}
use coroutine_transaction.Server.Freed.{update-freed}
use coroutine_transaction.Server.Answers.{Over, sent-delivered, sent-refused, started-code}
use coroutine_transaction.Tests.Timer.{all_funcs}
use coroutine_transaction.Tests.Transaction.{plan, fresh}

abbrev pub tran_of : ℕ → Option (Transaction (List ℕ))
tran_of t = if t == 1 then some plan else none

abbrev pub booted : Server (List ℕ)
booted = new_server (pos 4096) (start_timers all_funcs) []

abbrev pub first_env : Env
first_env = record { now = 5; timer_id = 11; coroutine_id = 7; mem = true }

abbrev new_inst : Instance
new_inst = record fresh { coroutine_id = 0 }

abbrev pub started : Server (List ℕ)
started = (start_transaction tran_of first_env new_inst booted).0

started-Reachable : Reachable tran_of started
started-Reachable =
    calls (begins (pos 4096) (start_timers all_funcs) []) (starts first_env new_inst booted refl)

abbrev second_env : Env
second_env = record { now = 9; timer_id = 12; coroutine_id = 8; mem = true }

-- The process crashes while the instance waits, and it is resumed.
abbrev resumed : Server (List ℕ)
resumed = resume_all tran_of ((second_env, 70) ∷ []) started

Reachable-Idle_example : Idle tran_of resumed
Reachable-Idle_example =
    Reachable-Idle tran_of
      (calls started-Reachable (resumes ((second_env, 70) ∷ []) started ((λ q. cc q), tt)))

-- The first command has run, and the instance waits with its timer.
abbrev pub waiting_inst : Instance
waiting_inst = record fresh {
  timer_id = 11;
  coroutine_id = 7;
  curr_index = pos 0;
  waiting_index = pos 0;
  events = 3 ∷ 13 ∷ [];
}

pub started_lem : (started.trans_map 70 ≡ some waiting_inst) × (started.user ≡ 3 ∷ 0 ∷ [])
unfolding start_transaction start start_on entry add_tran_inst run_on real_start instance_wait
    resume_at run_commands do_and_wait command_wait wait_for_event init create_work_routine
    swap_to_main swap_to_work_routine register_timer reg reg_sec push cal_remain init_timers
    start_timers
started_lem = (refl, refl)

sent-delivered_example : (send_msg_event_to_tran tran_of first_env 70 13 started).1 ≡ pos 0
sent-delivered_example =
    sent-delivered tran_of first_env 70 13 waiting_inst started started-Reachable (λ q. cc q)
      (λ q. cc q) started_lem.0 refl

sent-refused_example :
    let timers = (destroy_timer 11 started.timers).0 in
    (send_msg_event_to_tran tran_of first_env 70 6 started ≡ (
      set_inst 70
          (some (record waiting_inst { timer_id = 0 }))
          (record started { timers = timers }),
      error_svr_internal,
    ))
    × Over 11 timers
sent-refused_example =
    sent-refused tran_of first_env 70 6 waiting_inst started started-Reachable (λ q. cc q)
      (λ q. cc q) (λ q. cc q) (λ q. cc q)
      (λ h. elim h [ inl q ↦ cc q | inr t ↦ elim t [ inl q ↦ cc q | inr z ↦ z ] ]) started_lem.0
      (λ q. cc q)

started-code_example :
    (start_transaction tran_of first_env new_inst booted).1
    ≡ (create_work_routine true 7 (pos 524288) 1 70 booted.scheduler).1
started-code_example =
    started-code tran_of first_env new_inst plan booted
      (begins (pos 4096) (start_timers all_funcs) []) (λ q. cc q) refl refl refl refl

-- A timeout ends the transaction.
abbrev timed_out : Server (List ℕ)
timed_out = (send_msg_event_to_tran tran_of first_env 70 1 started).0

update-freed_example :
    All
      (λ (d : Instance). (update tran_of timed_out).scheduler.coroutines d.coroutine_id ≡ none)
      timed_out.destroy_list
    × ((update tran_of timed_out).destroy_list ≡ [])
update-freed_example =
    update-freed tran_of timed_out (calls started-Reachable (sends first_env 70 1 started))

-- The resumed instance waits again with its timer, and its first command does not run twice.
resumed_lem : (resumed.trans_map 70 ≡ some waiting_inst) × (resumed.user ≡ 3 ∷ 0 ∷ [])
unfolding resume_all resume_instance resume_transaction resume_restarted restart_coroutine
    real_resume resume_index start_transaction start start_on entry add_tran_inst run_on real_start
    instance_wait resume_at run_commands do_and_wait command_wait wait_for_event init
    create_work_routine swap_to_main swap_to_work_routine register_timer reg reg_sec push cal_remain
    init_timers start_timers
resumed_lem = (refl, refl)

-- The process crashes after CreateWorkRoutine and before SwapToWorkRoutine, so that OnStart has not run.
-- The resumed coroutine ends at once, and Update tells the user of a success.
abbrev created : Server (List ℕ)
created = set_inst 70 (some fresh) (record booted {
  scheduler = (create_work_routine true 7 (pos 524288) 1 70 booted.scheduler).0;
})

created_lem :
    (update tran_of (resume_all tran_of ((second_env, 70) ∷ []) created)).user ≡ 9 ∷ 1 ∷ []
unfolding resume_all resume_instance resume_transaction resume_restarted restart_coroutine
    real_resume resume_index start_transaction start start_on entry add_tran_inst run_on init
    create_work_routine swap_to_main swap_to_work_routine update update_all update_one tell_result
    free_coroutine destroy_work_routine handle_result on_work_routine_exit mark_delay_destroy finish
created_lem = refl

abbrev ready_coroutine : Coroutine
ready_coroutine = record new_coroutine {
  id = 7;
  has_stack = true;
  param = 70;
  entry = 1;
  state = ready;
  stack_size = pos 524288;
  page_size = pos 4096;
}

created-Valid : Valid created.scheduler
created-Valid =
    create_work_routine-Valid true 7 (pos 524288) 1 70 booted.scheduler (init-Valid (pos 4096))

interrupted-reported_example :
    let r = resume_instance tran_of second_env fresh created in
    let over = record fresh { is_complete = true; is_delay_destroying = true } in
    let w : World (List ℕ) = record { inst = record over { coroutine_id = 0 }; user = [] } in
    (r.1 ≡ pos 0)
    × (r.0.user ≡ [])
    × (r.0.trans_map 70 ≡ none)
    × (r.0.destroy_list ≡ over ∷ [])
    × ((tell_result tran_of over r.0).user ≡ (call plan.finally (call plan.on_success w)).user)
unfolding init create_work_routine
interrupted-reported_example =
    interrupted-reported tran_of second_env fresh plan ready_coroutine created created-Valid refl
      refl (λ q. cc q) refl refl refl refl refl refl refl refl
