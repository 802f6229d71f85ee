-- ===== src/Transaction/Wait.antt =====
-- Waiting for events: Command::WaitForEvent (src/transaction/command.cpp) and
-- TransactionInstance::ProcDefaultEvents (src/transaction/transaction_instance.cpp), as the work
-- coroutine runs them. What the calls of TransactionInstance::Wait bring, one after the other, is an
-- argument; the coroutine is parked where it ends. Event ids are not negative.
pub mod Events
use coroutine_transaction.Base.{
  ℕ, zero, suc, Bool, true, false, not, ◌||◌, Option, none, some, List, [], ◌∷◌, ℤ, pos, negsuc,
  is_zero, ◌==◌, if◌then◌else◌, get_elem?, unlink,
}
use coroutine_transaction.Transaction.{
  World, Command, Transaction, call_code, error_svr_internal, error_invalid_para, error_abort_tran,
}

abbrev pub event_timeout : ℕ
event_timeout = 1

abbrev pub event_abort : ℕ
event_abort = 2

-- What a call of TransactionInstance::Wait brings: an error, or the event that woke the coroutine.
pub data Answer : Type 0 where
  fails : Answer
  delivers : ℕ → Answer

-- The coroutine is parked with the events that are left, or the call returned, with the answers that
-- are left.
pub data Progress (U : Type 0) : Type 0 where
  waiting : World U → List ℕ → Progress U
  returned : World U → ℤ → List Answer → Progress U

-- `std::find` and `events.erase` on the first occurrence.
abbrev pub is_awaited : ℕ → List ℕ → Bool
is_awaited v [] = false
is_awaited v (e ∷ es) = v == e || is_awaited v es

abbrev pub erase_first : ℕ → List ℕ → List ℕ
erase_first v [] = []
erase_first v (e ∷ es) = if v == e then es else e ∷ erase_first v es

module _ {U : Type 0} where
  -- `cmd_array_[curr_index_]`, with the tests before it.
  abbrev pub command_at : List (Command U) → ℤ → Option (Command U)
  command_at cmds (negsuc _) = none
  command_at cmds (pos i) = get_elem? cmds i

  -- TransactionInstance::ProcDefaultEvents, on what GetTranByType finds.
  unfoldable pub proc_default_events : Option (Transaction U) → World U → World U × ℤ
  proc_default_events tran w =
      if w.inst.event_type == event_abort
      then (record w { inst = record (w.inst) { fail_reason = error_abort_tran } }, pos 0)
      else if w.inst.event_type == event_timeout
      then elim tran [
        | none ↦ (w, error_invalid_para)
        | some tr ↦ elim (command_at tr.cmds w.inst.curr_index) [
          | none ↦ (w, error_invalid_para)
          | some cmd ↦ call_code cmd.on_timeout w
        ]
      ]
      else (w, pos 0)

module _ {U : Type 0} (tran : Option (Transaction U)) (cmd : Command U) where
  -- Command::OnRecvMsgEvent if the event is awaited, and ProcDefaultEvents if it is not.
  unfoldable pub receive : ℕ → List ℕ → World U → World U × ℤ
  unfolding proc_default_events
  receive v events w =
      if is_awaited v events
      then call_code (cmd.on_recv_msg_event v) w
      else proc_default_events tran w

  -- Command::WaitForEvent.
  unfoldable pub wait_for_event : List ℕ → List Answer → World U → Progress U
  unfolding receive
  wait_for_event [] answers w = returned w (pos 0) answers
  wait_for_event (e ∷ es) [] w = waiting w (e ∷ es)
  wait_for_event (e ∷ es) (fails ∷ answers) w = returned w error_svr_internal answers
  wait_for_event (e ∷ es) (delivers v ∷ answers) w =
      let (w', ret) = receive v (e ∷ es) (record w { inst = record (w.inst) { event_type = v } }) in
      let rest = wait_for_event (erase_first v (e ∷ es)) answers w' in
      if is_zero ret then rest else returned w' ret answers
