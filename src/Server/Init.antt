-- ===== src/Server/Init.antt =====
-- TransactionServer::Init and RegisterTimerFunc: src/transaction/transaction_server.cpp. The callbacks of
-- timers are static, so that those of an earlier server of the process are still there.
use coroutine_transaction.Base.{
  ℕ, ◌≡◌, refl, Bool, true, false, ℤ, pos, negsuc, is_zero, if◌then◌else◌, Option,
}
use coroutine_transaction.Timer.{TimerMgr, init, register_timer_func}
use coroutine_transaction.Transaction.{Transaction}
use coroutine_transaction.Server.{Server, transaction_on_timeout_id}
use coroutine_transaction.Server.Steps.{new_server, Reachable, begins}

-- TransactionServer::RegisterTimerFunc.
pub register_funcs : TimerMgr → TimerMgr × ℤ
unfolding register_timer_func
register_funcs m =
    let (m', ret) = register_timer_func transaction_on_timeout_id m in
    (m', if is_zero ret then pos 0 else negsuc 0)

-- TransactionServer::Init on a new server, at the page size and with the callbacks of the process.
pub init_server : {U : Type 0} → ℤ → (ℕ → Bool) → U → Server U × ℤ
unfolding init register_funcs
init_server page funcs user =
    let (timers, ret) = register_funcs (record init { timer_funcs = funcs }) in
    (new_server page timers user, ret)

-- Init begins a server, whatever it returns.
pub init_server-Reachable :
    {U : Type 0} (tran_of : ℕ → Option (Transaction U)) (page : ℤ) (funcs : ℕ → Bool) (user : U)
    → Reachable tran_of (init_server page funcs user).0
unfolding init_server
init_server-Reachable tran_of page funcs user = begins page _ user

-- Init returns 0 and has the callback of the timeouts registered, if the process had none.
pub init_server-first :
    {U : Type 0} (page : ℤ) (funcs : ℕ → Bool) (user : U)
    → funcs transaction_on_timeout_id ≡ false
    → let r = init_server page funcs user in
      (r.1 ≡ pos 0) × (r.0.timers.timer_funcs transaction_on_timeout_id ≡ true)
unfolding init_server register_funcs register_timer_func
init_server-first page funcs user e = rw e (refl, refl)

-- A second server of the process gets -1 from its Init.
pub init_server-again :
    {U : Type 0} (page : ℤ) (funcs : ℕ → Bool) (user : U)
    → funcs transaction_on_timeout_id ≡ true
    → (init_server page funcs user).1 ≡ negsuc 0
unfolding init_server register_funcs register_timer_func
init_server-again page funcs user e = rw e refl
