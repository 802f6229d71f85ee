-- ===== src/Transaction/Run.antt =====
-- Running the commands of a transaction: Command::Wait and DoAndWait (src/transaction/command.cpp),
-- Transaction::RunCommandOnInstance (src/transaction/transaction.cpp). Commands are not null.
pub mod Failed
use coroutine_transaction.Base.{
  ℕ, zero, suc, Bool, true, false, not, ◌||◌, Option, none, some, List, [], ◌∷◌, ℤ, pos, negsuc,
  is_zero, if◌then◌else◌,
}
use coroutine_transaction.Transaction.{
  Instance, World, Command, Transaction, call_code, error_logic,
}
use coroutine_transaction.Transaction.Wait.{Answer, Progress, waiting, returned, wait_for_event}

-- The coroutine is parked at a command with the events that are left, or the loop has ended.
pub data Run (U : Type 0) : Type 0 where
  parked : ℕ → List ℕ → World U → Run U
  ended : World U → List Answer → Run U

-- IsFailed.
abbrev pub is_failed : Instance → Bool
is_failed inst = not (is_zero inst.fail_reason)

abbrev pub is_empty : List ℕ → Bool
is_empty [] = true
is_empty (_ ∷ _) = false

module _ {U : Type 0} where
  -- `set_curr_index(i)` and `set_should_wait_current_cmd(true)`.
  abbrev pub at_command : ℕ → World U → World U
  at_command i w = record w {
    inst = record (w.inst) { curr_index = pos i; should_wait_current_cmd = true };
  }

  -- `set_fail_index(i)`, and the reason if none is set.
  abbrev pub fail_at : ℕ → ℤ → World U → World U
  fail_at i code w = record w {
    inst = record (w.inst) {
      fail_index = pos i;
      fail_reason = if is_zero w.inst.fail_reason then code else w.inst.fail_reason;
    };
  }

  -- What follows a command: `rest` is the run of the commands after it.
  abbrev pub after_command : ℕ → ℤ → List Answer → World U → Run U → Run U
  after_command i code answers w rest =
      if not (is_zero code) || is_failed w.inst
      then ended (fail_at i code w) answers
      else if w.inst.is_complete
      then ended w answers
      else rest

module _ {U : Type 0} (tran : Option (Transaction U)) where
  -- Command::Wait.
  unfoldable pub command_wait : Command U → List Answer → World U → Progress U
  unfolding wait_for_event
  command_wait cmd answers w =
      if is_empty cmd.do_event_ids
      then returned w error_logic answers
      else wait_for_event tran cmd cmd.do_event_ids answers w

  -- Command::DoAndWait.
  unfoldable pub do_and_wait : Command U → List Answer → World U → Progress U
  unfolding command_wait
  do_and_wait cmd answers w =
      let (w', ret) = call_code cmd.do_command w in
      if not (is_zero ret)
      then returned w' ret answers
      else if not w'.inst.should_wait_current_cmd
      then returned w' (pos 0) answers
      else command_wait cmd answers w'

  -- RunCommandOnInstance on the commands from the index `i` on.
  unfoldable pub run_commands : List (Command U) → ℕ → List Answer → World U → Run U
  unfolding do_and_wait
  run_commands [] i answers w = ended w answers
  run_commands (cmd ∷ cmds) i answers w = elim (do_and_wait cmd answers (at_command i w)) [
    | waiting w' events ↦ parked i events w'
    | returned w' code left ↦ after_command i code left w' (run_commands cmds (suc i) left w')
  ]
