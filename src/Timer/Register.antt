-- ===== src/Timer/Register.antt =====
-- Registering, asking and destroying timers: src/timer/svr_timer.cpp.
use coroutine_transaction.Base.{
  ℕ, ◌+◌, ◌-◌, ◌%◌, Bool, true, false, not, ◌&&◌, ◌||◌, Option, none, some, List, [], ◌∷◌, ℤ, pos,
  minus_one, is_pos, is_zero, to_ℕ, ltb, leb, ◌==◌, if◌then◌else◌,
}
use coroutine_transaction.Timer.{
  Timer, TimerMgr, set_timer, reg, unregister_timer, u64_mod, u32_mod, max_timeout,
  max_timer_func_id_num, timer_cb_data_max_len, invalid_timer_id,
}

-- TimerMgr::DeleteTimer.
unfoldable pub delete_timer : ℕ → TimerMgr → TimerMgr
delete_timer id m =
    let m' = unregister_timer id m in
    record m' { timers = λ j. if j == id then none else m'.timers j }

-- TimerMgr::DestroyTimer: a timer whose callback runs is only marked.
unfoldable pub destroy_timer : ℕ → TimerMgr → TimerMgr × ℤ
destroy_timer id m = if id == invalid_timer_id then (m, minus_one) else elim (m.timers id) [
  | none ↦ (m, pos 0)
  | some t ↦
      if t.is_in_proc
      then (set_timer id (record t { forever = false; repeats = pos 0 }) m, pos 0)
      else (delete_timer id m, pos 0)
]

-- CommonUtil::Clamp.
abbrev pub clamp : ℕ → ℕ → ℕ → ℕ
clamp v lo hi = if ltb v lo then lo else if ltb hi v then hi else v

-- CAL_EXPIRE, on u64.
abbrev pub cal_expire : ℕ → ℕ → ℕ
cal_expire t ms = (t + ms) % u64_mod

-- What RegisterTimer is asked for.
pub record Request : Type 0 where
  pub timeout : ℕ
  pub interval : ℕ
  pub repeats : ℤ
  pub func_id : ℤ
  pub user_data : Option ℕ
  pub data_len : ℕ

abbrev pub is_null : Option ℕ → Bool
is_null none = true
is_null (some _) = false

-- The two tests of RegisterTimer on its arguments.
abbrev pub is_accepted : Request → Bool
is_accepted r =
    (is_pos r.func_id && ltb (to_ℕ r.func_id) max_timer_func_id_num)
    && not ((ltb 0 r.data_len && is_null r.user_data) || ltb timer_cb_data_max_len r.data_len)

abbrev pub new_timer : ℕ → ℕ → Request → Timer
new_timer now id r = record {
  timer_id = id;
  user_data = r.user_data;
  timeout = clamp r.timeout 1 max_timeout;
  interval = clamp r.interval 1 max_timeout;
  expire = cal_expire now (clamp r.timeout 1 max_timeout);
  repeats = r.repeats;
  timer_func_id = to_ℕ r.func_id;
  data_len = r.data_len;
  forever = is_zero r.repeats;
  is_in_proc = false;
  owner = none;
}

-- The clock starts at the first registration.
abbrev pub start_clock : ℕ → TimerMgr → TimerMgr
start_clock now m = if m.ticking then m else record m { ticking = true; lasttick = now }

-- TimerMgr::RegisterTimer, at the clock reading `now` and the result `id` of GenGUID.
unfoldable pub register_timer : ℕ → ℕ → Request → TimerMgr → TimerMgr × ℕ
unfolding reg
register_timer now id r m =
    if not (is_accepted r) || id == 0 then (m, invalid_timer_id) else elim (m.timers id) [
      | some _ ↦ (m, invalid_timer_id)
      | none ↦
          let m' = start_clock now (set_timer id (new_timer now id r) m) in
          (reg id m'.lasttick m', id)
    ]

-- TimerMgr::GetRemainNum, GetRemainMs and GetExpireMs.
pub get_remain_num : ℕ → TimerMgr → ℤ
get_remain_num id m = elim (m.timers id) [
  | none ↦ pos 0
  | some t ↦ if t.forever then minus_one else t.repeats
]

pub get_remain_ms : ℕ → ℕ → TimerMgr → ℕ
get_remain_ms cur_ms id m = elim (m.timers id) [
  | none ↦ 0
  | some t ↦ if leb t.expire cur_ms then 0 else (t.expire - cur_ms) % u32_mod
]

unfoldable pub get_expire_ms : ℕ → TimerMgr → ℕ
get_expire_ms id m = elim (m.timers id) [ none ↦ 0 | some t ↦ t.expire ]

-- A call that a callback makes on the manager.
pub data Call : Type 0 where
  registers : ℕ → ℕ → Request → Call
  destroys : ℕ → Call

unfoldable pub run_call : Call → TimerMgr → TimerMgr
unfolding register_timer destroy_timer
run_call (registers now id r) m = (register_timer now id r m).0
run_call (destroys id) m = (destroy_timer id m).0

unfoldable pub run_calls : List Call → TimerMgr → TimerMgr
unfolding run_call
run_calls [] m = m
run_calls (c ∷ cs) m = run_calls cs (run_call c m)
