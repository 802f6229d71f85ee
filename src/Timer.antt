-- ===== src/Timer.antt =====
-- The timing wheels of src/timer/svr_timer.h and src/timer/svr_timer.cpp.
-- A `Timer*` is its `timer_id`, the key under which `timers_` holds it; an intrusive list of a slot
-- is the list of the ids that are linked in it, and a timer's `owner` names that slot.
-- Clock readings and the ids of GenGUID are arguments. What a callback does to the manager is a
-- script of calls, for each tick and timer. A `data_len` is not negative.
mod Lists
mod Linked
mod Unlinked
pub mod Placed
mod Loop
mod Steps
mod Destroyed
mod Calls
mod Rounds
mod Firings
mod Slots
mod Phases
mod Turns
mod Clock
mod Stays
pub mod Kept
pub mod Fires
pub mod Due
mod Start
pub mod History
pub mod Register
pub mod Nodes
pub mod Fire
use coroutine_transaction.Base.{
  ℕ, suc, zero, ◌+◌, ◌-◌, ◌*◌, ◌/◌, ◌%◌, ◌^◌, Bool, true, false, not, ◌&&◌, ◌||◌, Option, none,
  some, List, [], ◌∷◌, ◌++◌, ℤ, pos, negsuc, minus_one, is_pos, is_zero, to_ℕ, pred_ℤ, ltb, leb,
  ◌==◌, if◌then◌else◌, length, update, unlink,
}

abbrev pub u32_mod : ℕ
u32_mod = 2 ^ 32

abbrev pub u64_mod : ℕ
u64_mod = 2 ^ 64

abbrev pub max_timeout : ℕ
max_timeout = 1000 * 3600 * 24 - 1

abbrev pub max_timer_func_id_num : ℕ
max_timer_func_id_num = 64

abbrev pub timer_cb_data_max_len : ℕ
timer_cb_data_max_len = 128

abbrev pub invalid_timer_id : ℕ
invalid_timer_id = 0

pub data WheelType : Type 0 where
  sec hour day : WheelType

abbrev pub wheel_size : WheelType → ℕ
wheel_size sec = 1000
wheel_size hour = 3600
wheel_size day = 24

abbrev pub same_wheel : WheelType → WheelType → Bool
same_wheel sec sec = true
same_wheel hour hour = true
same_wheel day day = true
same_wheel _ _ = false

pub record Timer : Type 0 where
  pub timer_id : ℕ
  pub user_data : Option ℕ
  pub timeout : ℕ
  pub interval : ℕ
  pub expire : ℕ
  pub repeats : ℤ
  pub timer_func_id : ℕ
  pub data_len : ℕ
  pub forever : Bool
  pub is_in_proc : Bool
  pub owner : Option (WheelType × ℕ)

-- One run of OnTimeout: the tick, the timer, and the time for which it was due.
pub record Firing : Type 0 where
  pub tick : ℕ
  pub id : ℕ
  pub due : ℕ

-- `cur` and `tlist` are the two fields of `wheels_[type]`. `ticking` is `tick_ != NULL`;
-- `timer_funcs` is the static `timer_func_array`. The field `firings` has no counterpart in the
-- source: it notes each run of OnTimeout, the latest first.
pub record TimerMgr : Type 0 where
  pub ticking : Bool
  pub lasttick : ℕ
  pub cur : WheelType → ℤ
  pub tlist : WheelType → ℕ → List ℕ
  pub timers : ℕ → Option Timer
  pub timer_funcs : ℕ → Bool
  pub firings : List Firing

abbrev pub same_slot : WheelType → ℕ → WheelType → ℕ → Bool
same_slot u y w x = same_wheel u w && y == x

abbrev pub set_slot : WheelType → ℕ → List ℕ → TimerMgr → TimerMgr
set_slot w x ids m = record m { tlist = λ u y. if same_slot u y w x then ids else m.tlist u y }

abbrev pub set_timer : ℕ → Timer → TimerMgr → TimerMgr
set_timer id t m = record m { timers = update m.timers id (some t) }

-- TimeWheel::Init and TimerMgr::Init.
abbrev pub init_cur : WheelType → ℤ
init_cur sec = minus_one
init_cur hour = pos 0
init_cur day = pos 0

unfoldable pub init : TimerMgr
init = record {
  ticking = false;
  lasttick = 0;
  cur = init_cur;
  tlist = λ _ _. [];
  timers = λ _. none;
  timer_funcs = λ _. false;
  firings = [];
}

-- Timer::RegisterTimerFunc, for a callback that is not NULL.
unfoldable pub register_timer_func : ℕ → TimerMgr → TimerMgr × ℤ
register_timer_func func_id m =
    if func_id == 0 || leb max_timer_func_id_num func_id
    then (m, negsuc 0)
    else if m.timer_funcs func_id
    then (m, negsuc 1)
    else (record m { timer_funcs = λ i. i == func_id || m.timer_funcs i }, pos 0)

-- The arguments are u32, so both times are cut to 32 bits.
unfoldable pub cal_remain : ℕ → ℕ → ℕ
cal_remain now expire =
    let n = now % u32_mod in
    let e = expire % u32_mod in if ltb e n then (u64_mod - 1 - n + e) % u32_mod else e - n

-- `(u32)(wheel->cur + (s32)remain) % wsize`.
abbrev pub add_u32 : ℤ → ℕ → ℕ
add_u32 (pos c) r = (c + r) % u32_mod
add_u32 (negsuc c) r = (r + u32_mod - suc c) % u32_mod

abbrev pub slot_after : WheelType → ℕ → TimerMgr → ℕ
slot_after w remain m = add_u32 (m.cur w) remain % wheel_size w

-- DoubLink::Push leaves a node that is linked already where it is.
unfoldable pub push : WheelType → ℕ → ℕ → TimerMgr → TimerMgr
push w x id m = elim (m.timers id) [
  | none ↦ m
  | some t ↦ elim t.owner [
    | none ↦
        set_slot w x (m.tlist w x ++ (id ∷ [])) (set_timer id (record t { owner = some (w, x) }) m)
    | some _ ↦ m
  ]
]

-- TimerMgr::UnRegisterTimer: DoubLink::Remove takes a linked node out of the list that owns it.
unfoldable pub unregister_timer : ℕ → TimerMgr → TimerMgr
unregister_timer id m = elim (m.timers id) [
  | none ↦ m
  | some t ↦ elim t.owner [
    | none ↦ m
    | some (w, x) ↦
        set_slot w x (unlink id (m.tlist w x)) (set_timer id (record t { owner = none }) m)
  ]
]

-- DoubLink::Pop removes the first node, if there is one.
unfoldable pub pop : WheelType → ℕ → TimerMgr → Option (ℕ × TimerMgr)
unfolding unregister_timer
pop w x m = elim (m.tlist w x) [ [] ↦ none | id ∷ _ ↦ some (id, unregister_timer id m) ]

-- The three rounds that the `do … while` loop of TimerMgr::Reg can take.
unfoldable pub reg_day : ℕ → ℕ → TimerMgr → TimerMgr
reg_day id remain m = push day (slot_after day remain m) id m

unfoldable pub reg_hour : ℕ → ℕ → TimerMgr → TimerMgr
reg_hour id remain m =
    if leb remain (wheel_size hour)
    then push hour (slot_after hour remain m) id m
    else reg_day id ((remain - 1) / wheel_size hour) m

unfoldable pub reg_sec : ℕ → ℕ → TimerMgr → TimerMgr
reg_sec id remain m =
    if leb remain (wheel_size sec)
    then push sec (slot_after sec remain m) id m
    else reg_hour id ((remain - 1) / wheel_size sec) m

-- TimerMgr::Reg.
unfoldable pub reg : ℕ → ℕ → TimerMgr → TimerMgr
reg id tick m = elim (m.timers id) [ none ↦ m | some t ↦ reg_sec id (cal_remain tick t.expire) m ]
