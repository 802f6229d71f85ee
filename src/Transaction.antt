-- ===== src/Transaction.antt =====
-- Transactions after their last command: src/transaction/transaction.h, transaction.cpp,
-- transaction_instance.h and transaction_instance.cpp.
-- What the user of the library writes is a parameter: Do, OnRecvMsgEvent, OnTimeout and Undo of a
-- command, and OnStart, OnSuccess, OnFail, OnAbort and Finally of a transaction. They are functions on
-- the instance and on a state of the user, of any type. Of an instance they change what SetParams,
-- set_stack_size, complete and set_should_wait_current_cmd change; the other public setters
-- (set_coroutine_id, set_is_delay_destroying, SetEventArg) are called by the library itself.
pub mod Undo
pub mod Result
pub mod Wait
pub mod Run
use coroutine_transaction.Base.{
  ℕ, zero, suc, ◌-◌, Bool, true, false, not, Option, none, some, List, [], ◌∷◌, ℤ, pos, negsuc,
  minus_one, eq_ℤ, ◌==◌, leb, if◌then◌else◌, length, get_elem?,
}

-- error_define.proto.
abbrev pub error_unknown : ℤ
error_unknown = pos 1

abbrev pub error_logic : ℤ
error_logic = pos 5

abbrev pub error_svr_internal : ℤ
error_svr_internal = pos 500

abbrev pub error_already_in_progress : ℤ
error_already_in_progress = pos 505

abbrev pub error_abort_tran : ℤ
error_abort_tran = pos 1000

abbrev pub error_invalid_para : ℤ
error_invalid_para = pos 10

-- TransactionInstance; the message of the last event is not kept.
pub record Instance : Type 0 where
  pub id : ℕ
  pub owner_id : ℕ
  pub timer_id : ℕ
  pub coroutine_id : ℕ
  pub param1 : ℕ
  pub param2 : ℕ
  pub type : ℕ
  pub curr_index : ℤ
  pub waiting_index : ℤ
  pub fail_index : ℤ
  pub events : List ℕ
  pub event_type : ℕ
  pub fail_reason : ℤ
  pub stack_size : ℤ
  pub is_in_undo : Bool
  pub is_complete : Bool
  pub is_delay_destroying : Bool
  pub should_wait_current_cmd : Bool

-- The instance after code of the user.
abbrev pub by_user : Instance → Instance → Instance
by_user old new = record old {
  param1 = new.param1;
  param2 = new.param2;
  stack_size = new.stack_size;
  is_complete = new.is_complete;
  should_wait_current_cmd = new.should_wait_current_cmd;
}

pub record World (U : Type 0) : Type 0 where
  pub inst : Instance
  pub user : U

module _ {U : Type 0} where
  -- A call of the user's code.
  abbrev pub call_code : (World U → World U × ℤ) → World U → World U × ℤ
  call_code f w = (record ((f w).0) { inst = by_user w.inst (f w).0.inst }, (f w).1)

  abbrev pub call : (World U → World U) → World U → World U
  call f w = record (f w) { inst = by_user w.inst (f w).inst }

  abbrev pub undo_begin : World U → World U
  undo_begin w = record w { inst = record (w.inst) { is_in_undo = true } }

  abbrev pub undo_end : World U → World U
  undo_end w = record w { inst = record (w.inst) { fail_index = minus_one; is_in_undo = false } }

-- A command: the events that it waits for and how long, and its Do, OnRecvMsgEvent, OnTimeout and Undo.
pub record Command (U : Type 0) : Type 0 where
  pub do_event_ids : List ℕ
  pub timeout_ms : ℤ
  pub do_command : World U → World U × ℤ
  pub on_recv_msg_event : ℕ → World U → World U × ℤ
  pub on_timeout : World U → World U × ℤ
  pub undo : World U → World U

pub record Transaction (U : Type 0) : Type 0 where
  pub cmds : List (Command U)
  pub is_need_undo : Bool
  pub on_start : World U → World U × ℤ
  pub on_success : World U → World U
  pub on_fail : World U → World U
  pub on_abort : World U → World U
  pub finally : World U → World U

module _ {U : Type 0} (tr : Transaction U) where
  -- `cmd_array_[i]->Undo(inst)`.
  abbrev pub undo_one : ℕ → World U → World U
  undo_one i w = elim (get_elem? tr.cmds i) [ none ↦ w | some c ↦ call c.undo w ]

  -- The `for` loop of Transaction::Undo, for the indices below `i`.
  pub undo_loop : ℕ → World U → World U
  undo_loop zero w = w
  undo_loop (suc i) w = undo_loop i (undo_one i w)

  -- Transaction::Undo from its index on.
  pub undo_at : ℤ → World U → World U × ℤ
  unfolding undo_loop
  undo_at (negsuc _) w = (w, error_unknown)
  undo_at (pos n) w =
      if n == 0
      then (w, pos 0)
      else if leb (length tr.cmds) n
      then (w, error_svr_internal)
      else (undo_end (undo_loop n (undo_begin w)), pos 0)

  -- Transaction::Undo.
  pub undo : World U → World U × ℤ
  unfolding undo_at
  undo w =
      if not tr.is_need_undo
      then (w, pos 0)
      else if w.inst.is_in_undo
      then (w, error_already_in_progress)
      else undo_at w.inst.fail_index w

  -- Transaction::HandleResult; the first argument is IsInCoroutine.
  unfoldable pub handle_result : Bool → World U → World U
  unfolding undo
  handle_result in_coroutine w =
      if in_coroutine
      then w
      else if w.inst.is_complete
      then call tr.finally (call tr.on_success w)
      else let told =
          if eq_ℤ w.inst.fail_reason error_abort_tran
          then call tr.on_abort w
          else call tr.on_fail w in
        call tr.finally (if tr.is_need_undo then (undo told).0 else told)
