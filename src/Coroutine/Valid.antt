-- ===== src/Coroutine/Valid.antt =====
-- The scheduler's invariant: exactly one side runs.
use coroutine_transaction.Base.{ℕ, ◌≡◌, ◌≢◌, none, some, true, false}
use coroutine_transaction.Coroutine.{Coroutine, Scheduler, run, suspend, uninit}

-- A coroutine of the map: it runs exactly if it is the current one.
pub record Entry (s : Scheduler) (id : ℕ) (co : Coroutine) : Type 0 where
  pub same_id : co.id ≡ id
  pub not_main : co.is_main ≡ false
  pub started : co.state ≢ uninit
  pub running : s.curr ≡ id → co.state ≡ run
  pub resting : s.curr ≢ id → co.state ≢ run

-- The main coroutine runs exactly if no other is current; a current one stands in the map.
pub record Valid (s : Scheduler) : Type 0 where
  pub main_kind : s.main.is_main ≡ true
  pub main_run : s.curr ≡ 0 → s.main.state ≡ run
  pub main_suspend : s.curr ≢ 0 → s.main.state ≡ suspend
  pub no_zero : s.coroutines 0 ≡ none
  pub entries : (id : ℕ) (co : Coroutine) → s.coroutines id ≡ some co → Entry s id co
  pub current : s.curr ≢ 0 → (co : Coroutine) × (s.coroutines s.curr ≡ some co)
