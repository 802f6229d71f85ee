-- ===== src/Timer/Due.antt =====
-- What RegisterTimer promises to its caller.
use coroutine_transaction.Base.{
  Option, leb, arith, if◌then◌else◌, ◌^◌, update-ne, ℕ, ◌+◌, ◌%◌, ◌≡◌, ◌≢◌, refl, ap, ◌∙◌, true,
  none, some, update_self, ==-ne,
}
use coroutine_transaction.Timer.{Timer, TimerMgr, max_timeout, set_timer, reg}
use coroutine_transaction.Timer.Register.{
  Request, is_accepted, register_timer, get_expire_ms, clamp, new_timer, start_clock,
}
use coroutine_transaction.Timer.Calls.{reg-timers}
use coroutine_transaction.Timer.Stays.{started, reg-Stays}

get_expire_ms-found :
    (id : ℕ) (m : TimerMgr) (s : Timer) → m.timers id ≡ some s → get_expire_ms id m ≡ s.expire
unfolding get_expire_ms
get_expire_ms-found id m s f = rw (f, get_expire_ms) refl

abbrev pub min_ℕ : ℕ → ℕ → ℕ
min_ℕ a b = if leb a b then a else b

abbrev pub max_ℕ : ℕ → ℕ → ℕ
max_ℕ a b = if leb a b then b else a

clamp-max_min : (v : ℕ) → clamp v 1 max_timeout ≡ max_ℕ 1 (min_ℕ v 86399999)
clamp-max_min v = ground arith

-- Another timer, if it is there, keeps its expiry, and none appears.
register_timer-other :
    (now id : ℕ) (q : Request) (m : TimerMgr) (j : ℕ)
    → is_accepted q ≡ true
    → id ≢ 0
    → m.timers id ≡ none
    → j ≢ id
    → get_expire_ms j (register_timer now id q m).0 ≡ get_expire_ms j m
unfolding get_expire_ms register_timer
register_timer-other now id q m j ok nz e n =
    let m1 = set_timer id (new_timer now id q) m in
    let m2 = start_clock now m1 in
    let taken : register_timer now id q m ≡ (reg id m2.lasttick m2, id) =
      rw (ok, ==-ne id 0 nz, e) refl in
    let same : (register_timer now id q m).0.timers j ≡ m.timers j =
      ap (λ (r : TimerMgr × ℕ). r.0.timers j) taken
      ∙ reg-timers j id m2.lasttick m2 n
      ∙ started j now m1
      ∙ update-ne m.timers id _ j n in
    ap (λ (t : Option Timer). elim t as (λ _. ℕ) [ none ↦ 0 | some u ↦ u.expire ]) same

-- RegisterTimer with arguments that it accepts and an id of GenGUID that is not 0 and not taken
-- returns the id; GetExpireMs then gives the clock reading and the timeout, cut to the range from 1 to
-- 86399999 ms, on 64 bits, and for every other id what it gave before.
pub register_timer-due :
    (now id : ℕ) (q : Request) (m : TimerMgr) (j : ℕ)
    → is_accepted q ≡ true
    → id ≢ 0
    → m.timers id ≡ none
    → j ≢ id
    → let r = register_timer now id q m in
      (r.1 ≡ id)
      × (get_expire_ms id r.0 ≡ (now + max_ℕ 1 (min_ℕ q.timeout 86399999)) % 2 ^ 64)
      × (get_expire_ms j r.0 ≡ get_expire_ms j m)
unfolding register_timer
register_timer-due now id q m j ok nz e n =
    let t = new_timer now id q in
    let m' = start_clock now (set_timer id t m) in
    let (u, g, d) =
      reg-Stays id id m'.lasttick m' t
        (started id now (set_timer id t m) ∙ update_self m.timers id (some t)) in
    let taken : register_timer now id q m ≡ (reg id m'.lasttick m', id) =
      rw (ok, ==-ne id 0 nz, e) refl in
    (
      ap (λ (r : TimerMgr × ℕ). r.1) taken,
      ap (λ (r : TimerMgr × ℕ). get_expire_ms id r.0) taken
          ∙ get_expire_ms-found id _ u g
          ∙ d
          ∙ ap (λ k. (now + k) % 2 ^ 64) (clamp-max_min q.timeout),
      register_timer-other now id q m j ok nz e n,
    )
