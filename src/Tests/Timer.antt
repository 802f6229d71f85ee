-- ===== src/Tests/Timer.antt =====
-- The timers at concrete inputs.
use coroutine_transaction.Base.{
  length, false, ℕ, ◌≡◌, refl, none, some, true, Bool, List, [], ◌∷◌, arith, pos, ◌+◌,
}
use coroutine_transaction.Timer.Kept.{Ran}
use coroutine_transaction.Timer.Due.{register_timer-due}
use coroutine_transaction.Timer.Fires.{proc-Ran}
use coroutine_transaction.Timer.{
  Timer, sec, TimerMgr, reg, reg_sec, reg_hour, reg_day, push, pop, unregister_timer, cal_remain,
  init as init_timers,
}
use coroutine_transaction.Timer.Placed.{cal_remain-crossing}
use coroutine_transaction.Timer.Register.{
  Request, Call, registers, destroys, register_timer, get_expire_ms, destroy_timer, delete_timer,
  run_call,
}
use coroutine_transaction.Timer.Fire.{proc, settle, fire_one}
use coroutine_transaction.Timer.History.{
  Op, calls, procs, run_op, run_ops, start, OnTime, proc-OnTime,
}

abbrev every : ℕ → Request
every ms = record {
  timeout = ms;
  interval = ms;
  repeats = pos 0;
  func_id = pos 1;
  user_data = none;
  data_len = 0;
}

-- Timer 7 registers another timer whenever it runs.
abbrev chain : ℕ → ℕ → List Call
chain t id = registers t (id + t) (every 3) ∷ []

abbrev pub all_funcs : ℕ → Bool
all_funcs _ = true

abbrev day_of_work : List Op
day_of_work = calls (registers 5 7 (every 20)) ∷ procs 30 ∷ calls (destroys 7) ∷ []

proc-OnTime_example : OnTime 60 (proc chain 60 (run_ops chain day_of_work (start all_funcs)))
proc-OnTime_example =
    proc-OnTime chain all_funcs 0 5 60 day_of_work (omega arith) (omega arith)
      (λ t i b. ((omega arith, b), tt)) (omega arith, omega arith, (omega arith, omega arith, tt))
      (omega arith) (omega arith)

-- Two timers are due at the tick 15. The callback of the first destroys the second, and the loop
-- then takes the first one again, which is due at 1015.
abbrev rival : ℕ → ℕ → List Call
rival t id = destroys 2 ∷ []

abbrev twice : Request
twice = record (every 1000) { timeout = 10 }

early_run : TimerMgr
early_run = proc rival 15 (
    run_ops rival (calls (registers 5 1 twice) ∷ calls (registers 5 2 twice) ∷ [])
      (start all_funcs))

early_run_lem :
    early_run.firings
    ≡ record { tick = 15; id = 1; due = 1015 } ∷ record { tick = 15; id = 1; due = 15 } ∷ []
unfolding early_run proc run_ops run_op start init_timers register_timer destroy_timer reg reg_sec
    reg_hour reg_day push pop unregister_timer cal_remain settle delete_timer run_call fire_one
early_run_lem = refl

cal_remain-crossing_example : cal_remain 4294967290 4294967301 + 1 ≡ 11
cal_remain-crossing_example =
    cal_remain-crossing 1 4294967290 4294967301 (omega arith) (omega arith) (omega arith)

-- Timer 7 is due at 25.
abbrev one_call : List Op
one_call = calls (registers 5 7 (every 20)) ∷ []

abbrev due_timer : Timer
due_timer = record {
  timer_id = 7;
  user_data = none;
  timeout = 20;
  interval = 20;
  expire = 25;
  repeats = pos 0;
  timer_func_id = 1;
  data_len = 0;
  forever = true;
  is_in_proc = false;
  owner = some (sec, 19);
}

due_timer_lem : (run_ops chain one_call (start all_funcs)).timers 7 ≡ some due_timer
unfolding run_ops run_op start init_timers run_call register_timer reg reg_sec push cal_remain
due_timer_lem = refl

proc-Ran_example :
    let m = run_ops chain one_call (start all_funcs) in
    Ran 7 (length m.firings) 25 (proc chain 60 m).firings
proc-Ran_example =
    proc-Ran chain all_funcs 0 5 60 one_call 7 due_timer (omega arith) (omega arith)
      (λ t i b. ((omega arith, b), tt)) (omega arith, omega arith, tt) (omega arith) (omega arith)
      (λ k i. (tt, tt)) due_timer_lem (omega arith)

free_lem : (run_ops chain one_call (start all_funcs)).timers 8 ≡ none
unfolding run_ops run_op start init_timers run_call register_timer reg reg_sec push cal_remain
free_lem = refl

register_timer-due_example :
    let m = run_ops chain one_call (start all_funcs) in
    let r = register_timer 9 8 (every 0) m in
    (r.1 ≡ 8) × (get_expire_ms 8 r.0 ≡ 10) × (get_expire_ms 7 r.0 ≡ get_expire_ms 7 m)
register_timer-due_example =
    register_timer-due 9 8 (every 0) (run_ops chain one_call (start all_funcs)) 7 refl (λ q. cc q)
      free_lem (λ q. cc q)
