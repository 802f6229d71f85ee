-- ===== src/Server/Create.antt =====
-- The instance that the server makes itself: TransactionServer::StartCommonTransaction
-- (transaction/transaction_server.cpp) and the constructor of TransactionInstance.
use coroutine_transaction.Base.{
  ℕ, ◌==◌, true, false, not, Option, none, some, [], ℤ, pos, negsuc, is_zero, if◌then◌else◌,
}
use coroutine_transaction.Transaction.{Instance, Transaction, error_invalid_para}
use coroutine_transaction.Server.{Server, Env}
use coroutine_transaction.Server.Calls.{start_transaction}

-- What the environment answers, with the id that GenGUID gives.
pub record MakeEnv : Type 0 where
  pub env : Env
  pub guid : ℕ

-- TransactionInstance::TransactionInstance, and SetParams.
abbrev pub new_instance : ℕ → ℕ → ℕ → ℕ → ℕ → Instance
new_instance guid type owner_id param1 param2 = record {
  id = guid;
  owner_id = owner_id;
  timer_id = 0;
  coroutine_id = 0;
  param1 = param1;
  param2 = param2;
  type = type;
  curr_index = negsuc 0;
  waiting_index = negsuc 0;
  fail_index = negsuc 0;
  events = [];
  event_type = 0;
  fail_reason = pos 0;
  stack_size = pos 524288;
  is_in_undo = false;
  is_complete = false;
  is_delay_destroying = false;
  should_wait_current_cmd = true;
}

module _ {U : Type 0} (tran_of : ℕ → Option (Transaction U)) where
  -- TransactionServer::StartCommonTransaction, with the id of what it saves in `saved_inst`.
  unfoldable pub start_common_transaction :
      MakeEnv → ℕ → ℕ → ℕ → ℕ → Server U → Option ℕ × Server U × ℤ
  start_common_transaction make type owner_id param1 param2 s =
      if owner_id == 0
      then (none, s, error_invalid_para)
      else let inst = new_instance make.guid type owner_id param1 param2 in
        let (s', ret) = start_transaction tran_of make.env inst s in
        if not (is_zero ret) then (none, s', ret) else (some inst.id, s', pos 0)
