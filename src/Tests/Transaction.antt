-- ===== src/Tests/Transaction.antt =====
-- The transactions at concrete inputs.
use coroutine_transaction.Base.{
  ◌<◌, ◌≤◌, false, ℕ, ◌≡◌, refl, some, true, List, [], ◌∷◌, arith, pos, negsuc, ◌+◌,
}
use coroutine_transaction.Transaction.{
  Instance, World, Command, Transaction, call, undo_begin, undo_end, handle_result,
}
use coroutine_transaction.Transaction.Undo.{revert}
use coroutine_transaction.Transaction.Result.{handle_result-failed}
use coroutine_transaction.Transaction.Wait.{Answer, delivers, waiting, returned, wait_for_event}
use coroutine_transaction.Transaction.Wait.Events.{
  count, deliveries, wait_for_event-count, wait_for_event-returned,
}
use coroutine_transaction.Transaction.Run.{run_commands, ended, do_and_wait, command_wait}
use coroutine_transaction.Transaction.Run.Failed.{FailsAt, run_commands-FailsAt}

-- Transactions. The state of the user is the list of what ran, the latest first.
abbrev note : ℕ → World (List ℕ) → World (List ℕ)
note k w = record w { user = k ∷ w.user }

abbrev step : ℕ → Command (List ℕ)
step k = record {
  do_event_ids = k ∷ (k + 10) ∷ [];
  timeout_ms = pos 30000;
  do_command = λ w. (note k w, pos 0);
  on_recv_msg_event = λ e w. (note (k + e) w, pos 0);
  on_timeout = λ w. (w, pos 408);
  undo = note (k + 100);
}

abbrev pub plan : Transaction (List ℕ)
plan = record {
  cmds = step 3 ∷ step 4 ∷ step 5 ∷ [];
  is_need_undo = true;
  on_start = λ w. (note 0 w, pos 0);
  on_success = note 1;
  on_fail = note 2;
  on_abort = note 3;
  finally = note 9;
}

abbrev pub fresh : Instance
fresh = record {
  id = 70;
  owner_id = 1;
  timer_id = 0;
  coroutine_id = 7;
  param1 = 0;
  param2 = 0;
  type = 1;
  curr_index = negsuc 0;
  waiting_index = negsuc 0;
  fail_index = negsuc 0;
  events = [];
  event_type = 0;
  fail_reason = pos 0;
  stack_size = pos 524288;
  is_in_undo = false;
  is_complete = false;
  is_delay_destroying = false;
  should_wait_current_cmd = true;
}

abbrev begun : World (List ℕ)
begun = record { inst = fresh; user = [] }

abbrev failed : World (List ℕ)
failed = record { inst = record fresh { fail_index = pos 2; fail_reason = pos 408 }; user = [] }

-- The commands 1 and 0 are taken back, in this order.
failed_result : (handle_result plan false failed).user ≡ 9 ∷ 103 ∷ 104 ∷ 2 ∷ []
unfolding handle_result
failed_result = refl

-- An aborted instance goes on waiting for the events of its command.
aborted_waits :
    wait_for_event (some plan) (step 3) (3 ∷ 13 ∷ []) (delivers 2 ∷ []) begun
    ≡ waiting
        (record begun { inst = record fresh { event_type = 2; fail_reason = pos 1000 } })
        (3 ∷ 13 ∷ [])
unfolding wait_for_event
aborted_waits = refl

handle_result-failed_example :
    handle_result plan false failed
    ≡ call plan.finally
        (undo_end (revert (step 3 ∷ step 4 ∷ []) (undo_begin (call plan.on_fail failed))))
handle_result-failed_example = handle_result-failed plan 1 failed refl refl refl refl (omega arith)

abbrev answered : List Answer
answered = delivers 13 ∷ delivers 6 ∷ delivers 3 ∷ []

wait_for_event-returned_example :
    (w : World (List ℕ)) × (rest : List Answer) × (wait_for_event
        (some plan)
        (step 3)
        (3 ∷ 13 ∷ [])
        answered
        begun
      ≡ returned w (pos 0) rest)
wait_for_event-returned_example =
    wait_for_event-returned (some plan) (step 3) (λ u w. refl) (3 ∷ 13 ∷ []) answered begun
      (λ q. cc q, (λ q. cc q, (λ q. cc q, tt))) (λ v. ground arith)

abbrev received : World (List ℕ)
received = record { inst = record fresh { event_type = 3 }; user = 6 ∷ 16 ∷ [] }

received_lem :
    wait_for_event (some plan) (step 3) (3 ∷ 13 ∷ []) answered begun ≡ returned received (pos 0) []
unfolding wait_for_event
received_lem = refl

wait_for_event-count_example : count 13 (3 ∷ 13 ∷ []) ≤ deliveries 13 answered
wait_for_event-count_example =
    wait_for_event-count (some plan) (step 3) 13 (3 ∷ 13 ∷ []) answered [] begun received
      received_lem

-- The second command times out.
abbrev timed_run : List Answer
timed_run = delivers 13 ∷ delivers 3 ∷ delivers 1 ∷ []

abbrev timed : World (List ℕ)
timed = record {
  inst = record fresh {
    curr_index = pos 1;
    fail_index = pos 1;
    event_type = 1;
    fail_reason = pos 408;
  };
  user = 4 ∷ 6 ∷ 16 ∷ 3 ∷ [];
}

timed_lem : run_commands (some plan) plan.cmds 0 timed_run begun ≡ ended timed []
unfolding run_commands do_and_wait command_wait wait_for_event
timed_lem = refl

run_commands-FailsAt_example :
    (j : ℕ) × (timed.inst.fail_index ≡ pos j)
    × (0 ≤ j)
    × (j < 3)
    × FailsAt (some plan) plan.cmds 0 timed_run begun j
run_commands-FailsAt_example =
    run_commands-FailsAt (some plan) plan.cmds 0 timed_run [] begun timed refl timed_lem refl
