-- ===== src/Server/Steps.antt =====
-- The calls of the server in any order.
use coroutine_transaction.Base.{ℕ, ◌≡◌, ◌≢◌, refl, false, Option, none, List, [], ℤ, All}
use coroutine_transaction.Coroutine.{new_scheduler, init}
use coroutine_transaction.Coroutine.Life.{init-Valid}
use coroutine_transaction.Timer.{TimerMgr}
use coroutine_transaction.Transaction.{Instance, Transaction}
use coroutine_transaction.Server.{Server, Env}
use coroutine_transaction.Server.Calls.{
  start_transaction, send_msg_event_to_tran, transaction_on_timeout, update,
}
use coroutine_transaction.Server.Idle.{Idle}
use coroutine_transaction.Server.Starts.{start_transaction-Idle}
use coroutine_transaction.Server.Sends.{send_msg_event_to_tran-Idle, transaction_on_timeout-Idle}
use coroutine_transaction.Server.Updates.{update-Idle}
use coroutine_transaction.Server.Resume.{resume_all}
use coroutine_transaction.Server.Resume.Recovery.{resume_all-Idle}

-- The server after its Init.
abbrev pub new_server : {U : Type 0} → ℤ → TimerMgr → U → Server U
new_server page timers user = record {
  scheduler = (init page new_scheduler).0;
  timers = timers;
  trans_map = λ _. none;
  destroy_list = [];
  parks = λ _. none;
  user = user;
}

module _ {U : Type 0} (tran_of : ℕ → Option (Transaction U)) where
  -- What the main coroutine calls.
  pub data Call : Server U → Server U → Type 0 where
    starts :
        (env : Env) (inst : Instance) (s : Server U)
        → inst.is_delay_destroying ≡ false
        → Call s (start_transaction tran_of env inst s).0
    sends :
        (env : Env) (id v : ℕ) (s : Server U) → Call s (send_msg_event_to_tran tran_of env id v s).0
    times_out :
        (env : Env) (id : ℕ) (s : Server U) → Call s (transaction_on_timeout tran_of env id s)
    updates : (s : Server U) → Call s (update tran_of s)
    -- The process has crashed between two calls, and its instances are resumed.
    resumes :
        (ids : List (Env × ℕ)) (s : Server U)
        → All (λ (x : Env × ℕ). x.1 ≢ 0) ids
        → Call s (resume_all tran_of ids s)

  pub data Reachable : Server U → Type 0 where
    begins : (page : ℤ) (timers : TimerMgr) (user : U) → Reachable (new_server page timers user)
    calls : {s s' : Server U} → Reachable s → Call s s' → Reachable s'

  Call-Idle : {s s' : Server U} → Call s s' → Idle tran_of s → Idle tran_of s'
  Call-Idle (starts env inst s f) h = start_transaction-Idle tran_of env inst s f h
  Call-Idle (sends env id v s) h = send_msg_event_to_tran-Idle tran_of env id v s h
  Call-Idle (times_out env id s) h = transaction_on_timeout-Idle tran_of env id s h
  Call-Idle (updates s) h = update-Idle tran_of s h
  Call-Idle (resumes ids s n) h = resume_all-Idle tran_of ids s n h

  -- Between any calls of the server, and after its instances were resumed from a crash between two
  -- calls, the main coroutine runs, and every transaction of the map has a suspended coroutine of its
  -- own that stands at one of its commands, so that none is lost; no one waits on the coroutine of an
  -- instance that has ended. A new instance is not marked for destruction, and no id that is resumed
  -- is 0.
  pub Reachable-Idle : {s : Server U} → Reachable s → Idle tran_of s
  unfolding init
  Reachable-Idle (begins page timers user) = record {
    valid = init-Valid page;
    main = refl;
    rest = record { waits = λ j b e. cc e; apart = λ i j a b e. cc e; ended = tt };
  }
  Reachable-Idle (calls r c) = Call-Idle c (Reachable-Idle r)
