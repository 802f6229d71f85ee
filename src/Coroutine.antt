-- ===== src/Coroutine.antt =====
-- Coroutines and their scheduler: src/coroutine/boost_coroutine.h, boost_coroutine.cpp,
-- coroutine_scheduler.h and coroutine_scheduler.cpp.
-- JumpContext and MakeContext are assembly: a function stands for the code up to its jump, and its
-- result is the state in which the other side runs on. What the system answers (the page size,
-- whether posix_memalign succeeds) and the ids of GenGUID are arguments.
pub mod Valid
pub mod Swap
pub mod Made
pub mod Life
pub mod Restart
use Prim.Native.Nat.{bit_and}
use coroutine_transaction.Base.{
  ℕ, zero, suc, ◌+◌, ◌-◌, ◌*◌, Bool, true, false, not, ◌&&◌, ◌||◌, Option, none, some, ℤ, pos,
  negsuc, is_pos, is_zero, to_ℕ, ◌==◌, if◌then◌else◌,
}

-- CoroutineStateDef.
pub data State : Type 0 where
  uninit ready run suspend dead : State

abbrev pub is_uninit : State → Bool
is_uninit uninit = true
is_uninit _ = false

abbrev pub is_run : State → Bool
is_run run = true
is_run _ = false

abbrev pub is_dead : State → Bool
is_dead dead = true
is_dead _ = false

-- The states in which BoostCoroutine::Resume accepts a coroutine.
abbrev pub is_resumable : State → Bool
is_resumable suspend = true
is_resumable ready = true
is_resumable _ = false

-- `has_stack` is `stack_ != nullptr`; `entry` and `param` are what Prepare stores for the start.
pub record Coroutine : Type 0 where
  pub id : ℕ
  pub has_stack : Bool
  pub param : ℕ
  pub entry : ℕ
  pub state : State
  pub stack_size : ℤ
  pub page_size : ℤ
  pub is_main : Bool

abbrev pub new_coroutine : Coroutine
new_coroutine = record {
  id = 0;
  has_stack = false;
  param = 0;
  entry = 0;
  state = uninit;
  stack_size = pos 0;
  page_size = pos 0;
  is_main = false;
}

-- BoostCoroutine::Prepare; `mem` is whether posix_memalign finds the memory.
pub prepare : Bool → ℕ → ℕ → Coroutine → Coroutine × ℤ
prepare mem entry param co =
    if mem
    then (record co { param = param; entry = entry; has_stack = true; state = ready }, pos 0)
    else (record co { param = param; has_stack = false }, negsuc 1)

abbrev pub is_power_of_two : ℤ → Bool
is_power_of_two v = bit_and (to_ℕ v) (to_ℕ v - 1) == 0

-- BoostCoroutine::CreateWorkRoutine; the entry 0 is a null function.
pub create_work : Bool → ℕ → ℤ → ℤ → ℕ → ℕ → Coroutine → Coroutine × ℤ
unfolding prepare
create_work mem id stack_size page_size entry param co =
    if not (is_uninit co.state)
    then (co, negsuc 0)
    else if (not (is_pos stack_size) || not (is_pos page_size)) || (id == 0 || entry == 0)
    then (co, negsuc 0)
    else if not (is_power_of_two page_size)
    then (co, negsuc 0)
    else prepare mem entry param
        (record co { is_main = false; stack_size = stack_size; page_size = page_size; id = id })

-- BoostCoroutine::CreateMainRountine.
pub create_main : Coroutine → Coroutine × ℤ
create_main co =
    if not (is_uninit co.state)
    then (co, negsuc 0)
    else (record co { is_main = true; state = run }, pos 0)

abbrev pub same_kind : Bool → Bool → Bool
same_kind true true = true
same_kind false false = true
same_kind _ _ = false

-- BoostCoroutine::Resume on `co`, from `old`; both as they are at the jump.
pub resume : Coroutine → Coroutine → Coroutine × Coroutine × ℤ
resume co old =
    if not (is_resumable co.state) || same_kind old.is_main co.is_main
    then (co, old, negsuc 0)
    else (record co { state = run }, record old { state = suspend }, pos 0)

-- BoostCoroutine::RestartMainRoutine.
pub restart_main : Coroutine → Coroutine × ℤ
restart_main co = if not co.is_main then (co, negsuc 0) else (record co { state = run }, pos 0)

-- BoostCoroutine::RestartWorkRoutine.
pub restart_work : Bool → ℕ → ℕ → Coroutine → Coroutine × ℤ
unfolding prepare
restart_work mem entry param co =
    if co.is_main
    then (co, negsuc 0)
    else let bare = record co { has_stack = false } in
      if is_run co.state
      then (bare, negsuc 0)
      else if is_uninit co.state || is_dead co.state
      then (bare, negsuc 1)
      else prepare mem entry param bare

-- CoroutineScheduler.
pub record Scheduler : Type 0 where
  pub coroutines : ℕ → Option Coroutine
  pub main : Coroutine
  pub curr : ℕ
  pub page_size : ℤ

abbrev pub new_scheduler : Scheduler
new_scheduler = record { coroutines = λ _. none; main = new_coroutine; curr = 0; page_size = pos 0 }

abbrev pub set_coroutine : ℕ → Option Coroutine → Scheduler → Scheduler
set_coroutine id co s = record s { coroutines = λ j. if j == id then co else s.coroutines j }

-- CoroutineScheduler::Init, at the page size of sysconf.
unfoldable pub init : ℤ → Scheduler → Scheduler × ℤ
unfolding create_main
init page s =
    let (main, ret) = create_main s.main in
    (record s { page_size = page; main = main }, if is_zero ret then pos 0 else negsuc 0)

-- CoroutineScheduler::CreateWorkRoutine; the last part of the result is the id given out, if any.
unfoldable pub create_work_routine : Bool → ℕ → ℤ → ℕ → ℕ → Scheduler → Scheduler × ℤ × Option ℕ
unfolding create_work
create_work_routine mem new_id stack_size entry param s =
    let (co, ret) = create_work mem new_id stack_size s.page_size entry param new_coroutine in
    if not (is_zero ret) then (s, negsuc 1, none) else elim (s.coroutines new_id) [
      | some _ ↦ (s, negsuc 2, none)
      | none ↦ (set_coroutine new_id (some co) s, pos 0, some new_id)
    ]

-- CoroutineScheduler::DestroyWorkRoutine.
unfoldable pub destroy_work_routine : ℕ → Scheduler → Scheduler × ℤ
destroy_work_routine id s =
    if id == 0
    then (s, negsuc 0)
    else elim (s.coroutines id) [ none ↦ (s, negsuc 1) | some _ ↦ (set_coroutine id none s, pos 0) ]

-- CoroutineScheduler::SwapToMain.
unfoldable pub swap_to_main : Scheduler → Scheduler × ℤ
unfolding resume
swap_to_main s = if s.curr == 0 then (s, negsuc 0) else elim (s.coroutines s.curr) [
  | none ↦ (s, negsuc 1)
  | some co ↦
      let (main, co', ret) = resume s.main co in
      if not (is_zero ret)
      then (record s { curr = co.id }, ret)
      else (record (set_coroutine s.curr (some co') s) { main = main; curr = 0 }, pos 0)
]

-- CoroutineScheduler::SwapToWorkRoutine.
unfoldable pub swap_to_work_routine : ℕ → Scheduler → Scheduler × ℤ
unfolding resume
swap_to_work_routine id s = if not (s.curr == 0) then (s, negsuc 0) else elim (s.coroutines id) [
  | none ↦ (s, negsuc 1)
  | some co ↦
      let (co', main, ret) = resume co s.main in
      if not (is_zero ret)
      then (record s { curr = 0 }, ret)
      else (record (set_coroutine id (some co') s) { main = main; curr = co.id }, pos 0)
]

-- CoroutineScheduler::OnWorkRoutineExit.
unfoldable pub on_work_routine_exit : Scheduler → Scheduler × ℤ
on_work_routine_exit s =
    let back = record s { curr = 0; main = record (s.main) { state = run } } in
    if s.curr == 0 then (back, pos 0) else elim (s.coroutines s.curr) [
      | none ↦ (back, pos 0)
      | some co ↦ (set_coroutine s.curr (some (record co { state = dead })) back, pos 0)
    ]

-- CoroutineScheduler::Resume.
pub resume_main : Scheduler → Scheduler × ℤ
unfolding restart_main
resume_main s = let (main, ret) = restart_main s.main in (record s { curr = 0; main = main }, ret)

-- CoroutineScheduler::RestartCoroutine.
unfoldable pub restart_coroutine : Bool → ℕ → ℕ → ℕ → Scheduler → Scheduler × ℤ
unfolding restart_work
restart_coroutine mem id entry param s = elim (s.coroutines id) [
  | none ↦ (s, negsuc 0)
  | some co ↦
      let (co', ret) = restart_work mem entry param co in (set_coroutine id (some co') s, ret)
]

abbrev pub is_in_coroutine : Scheduler → Bool
is_in_coroutine s = not (s.curr == 0)
