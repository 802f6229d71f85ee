-- ===== src/Tests/Coroutine.antt =====
-- The coroutines at concrete inputs.
use coroutine_transaction.Base.{ℕ, ◌≡◌, ◌≢◌, refl, some, true, pos, negsuc}
use coroutine_transaction.Coroutine.{
  Coroutine, Scheduler, run, suspend, ready, new_scheduler, new_coroutine, init,
  create_work_routine, swap_to_main, swap_to_work_routine, on_work_routine_exit,
}
use coroutine_transaction.Coroutine.Valid.{Valid}
use coroutine_transaction.Coroutine.Swap.{swap_to_work_routine-cases, WorkOutcome}
use coroutine_transaction.Coroutine.Life.{
  Reachable, begins, steps, creates, enters, Reachable-Valid, enter-yield, ended-refused,
}

abbrev idle : Scheduler
idle = (init (pos 4096) new_scheduler).0

abbrev loaded : Scheduler
loaded = (create_work_routine true 7 (pos 65536) 3 9 idle).0

abbrev inside : Scheduler
inside = (swap_to_work_routine 7 loaded).0

loaded-Reachable : Reachable loaded
loaded-Reachable = steps (begins (pos 4096)) (creates true 7 (pos 65536) 3 9 idle)

Reachable-Valid_example : Valid inside
Reachable-Valid_example = Reachable-Valid (steps loaded-Reachable (enters 7 loaded))

abbrev worker : Coroutine
worker = record new_coroutine {
  id = 7;
  has_stack = true;
  param = 9;
  entry = 3;
  state = ready;
  stack_size = pos 65536;
  page_size = pos 4096;
}

enter-yield_example :
    let back = (swap_to_main inside).0 in
    (inside.curr ≡ 7)
    × (back.curr ≡ 0)
    × (back.main.state ≡ run)
    × (back.coroutines 7 ≡ some (record worker { state = suspend }))
    × ((j : ℕ) → j ≢ 7 → back.coroutines j ≡ loaded.coroutines j)
unfolding init create_work_routine
enter-yield_example = enter-yield loaded 7 worker (Reachable-Valid loaded-Reachable) refl refl refl

inside_curr : inside.curr ≡ 7
unfolding init create_work_routine swap_to_work_routine
inside_curr = refl

ended-refused_example :
    let after = (on_work_routine_exit inside).0 in
    swap_to_work_routine inside.curr after ≡ (after, negsuc 0)
ended-refused_example =
    ended-refused inside (Reachable-Valid (steps loaded-Reachable (enters 7 loaded)))
      (λ q. cc (inside_curr, q))

swap_to_work_routine-cases_example : WorkOutcome 7 loaded (swap_to_work_routine 7 loaded)
swap_to_work_routine-cases_example =
    swap_to_work_routine-cases loaded 7 (Reachable-Valid loaded-Reachable)
