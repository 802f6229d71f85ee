-- ===== src/Server/Answers.antt =====
-- What the calls of the server return.
use coroutine_transaction.Base.{
  ◌⊎◌, List, [], ◌∷◌, Elem, Bool-cases, Option-cases, ==-self, ℕ, ◌≡◌, ◌≢◌, refl, sym, inl, inr,
  true, false, Option, none, some, ℤ, pos, ◌==◌, ==-ne,
}
use coroutine_transaction.Coroutine.{Scheduler, create_work_routine}
use coroutine_transaction.Coroutine.Made.{create_work_routine-cases}
use coroutine_transaction.Server.Starts.{start_on-run}
use mathlib.Core.Path.{subst}
use coroutine_transaction.Timer.{Timer, TimerMgr}
use coroutine_transaction.Timer.Register.{destroy_timer, delete_timer}
use coroutine_transaction.Transaction.Wait.{is_awaited}
use coroutine_transaction.Transaction.{Instance, Transaction, error_svr_internal}
use coroutine_transaction.Server.{Server, Env, set_inst, add_tran_inst}
use coroutine_transaction.Server.Calls.{
  is_refused, send_msg_event, send_msg_event_to_tran, start_transaction, start, start_made,
  keep_started,
}
use coroutine_transaction.Server.Sends.{send_msg_event-outcome}
use coroutine_transaction.Server.Steps.{Reachable, Reachable-Idle}

-- A timer that is gone, or that is not armed again once its callback returns.
abbrev pub Over : ℕ → TimerMgr → Type 0
Over id m =
    (m.timers id ≡ none)
    ⊎ ((t : Timer) × (m.timers id ≡ some t)
        × (t.is_in_proc ≡ true)
        × (t.forever ≡ false)
        × (t.repeats ≡ pos 0))

destroy_timer-Over : (id : ℕ) (m : TimerMgr) → id ≢ 0 → Over id (destroy_timer id m).0
unfolding destroy_timer delete_timer
destroy_timer-Over id m n = elim (Option-cases (m.timers id)) [
  | inl e ↦ rw (==-ne id 0 n, e) (inl e)
  | inr (t, e) ↦ elim (Bool-cases t.is_in_proc) [
    | inl b ↦
        let marked : Timer = record t { forever = false; repeats = pos 0; is_in_proc = true } in
        simp (==-ne id 0 n, e, b) (inr (marked, rw (==-self id) refl, refl, refl, refl))
    | inr b ↦ simp (==-ne id 0 n, e, b, ==-self id) (inl refl)
  ]
]

not_awaited : (v : ℕ) (events : List ℕ) → (Elem v events → ⊥) → is_awaited v events ≡ false
not_awaited v [] h = refl
not_awaited v (x ∷ xs) h = rw (==-ne v x (λ q. h (inl q))) (not_awaited v xs (λ q. h (inr q)))

module _ {U : Type 0} (tran_of : ℕ → Option (Transaction U)) where
  -- In a reachable state, an event that a transaction of the map waits for, a timeout and an abort
  -- are delivered: SendMsgEventToTran returns 0.
  pub sent-delivered :
      (env : Env) (id v : ℕ) (inst : Instance) (s : Server U)
      → Reachable tran_of s
      → id ≢ 0
      → v ≢ 0
      → s.trans_map id ≡ some inst
      → is_refused v inst ≡ false
      → (send_msg_event_to_tran tran_of env id v s).1 ≡ pos 0
  unfolding send_msg_event_to_tran
  sent-delivered env id v inst s r n nv e b =
      elim (send_msg_event-outcome tran_of env v id inst s (Reachable-Idle tran_of r) e) [
        | inl (z, _) ↦ absurd (nv z)
        | inr (inl (_, _, c, _)) ↦ cc (b, c)
        | inr (inr (_, _, _, _, _, _, _, f)) ↦ rw (==-ne id 0 n, send_msg_event_to_tran, e, f) refl
      ]

  -- In a reachable state, an event that is no timeout, no abort and none of those for which a transaction
  -- of the map waits is refused with E_ERROR_SVR_INTERNAL. Nothing of the server changes but that the
  -- instance forgets its timer and that the timer is destroyed, so that it does not run again: the
  -- transaction waits on with no timeout.
  pub sent-refused :
      (env : Env) (id v : ℕ) (inst : Instance) (s : Server U)
      → Reachable tran_of s
      → id ≢ 0
      → v ≢ 0
      → v ≢ 1
      → v ≢ 2
      → (Elem v inst.events → ⊥)
      → s.trans_map id ≡ some inst
      → inst.timer_id ≢ 0
      → let timers = (destroy_timer inst.timer_id s.timers).0 in
        (send_msg_event_to_tran tran_of env id v s ≡ (
          set_inst id (some (record inst { timer_id = 0 })) (record s { timers = timers }),
          error_svr_internal,
        ))
        × Over inst.timer_id timers
  unfolding send_msg_event_to_tran send_msg_event
  sent-refused env id v inst s r n nv nt na nw e nz =
      let (w, _) = (Reachable-Idle tran_of r).rest.waits id inst e in
      (
        rw
            (
              ==-ne id 0 n,
              e,
              ==-ne v 0 nv,
              ==-ne v 1 nt,
              ==-ne v 2 na,
              ==-ne inst.timer_id 0 nz,
              not_awaited v inst.events nw,
              w.same_id,
            )
            refl,
        destroy_timer-Over inst.timer_id s.timers nz,
      )

  -- In a reachable state, a new instance of a known transaction starts exactly if its coroutine can
  -- be made: StartTransaction returns what CreateWorkRoutine returns.
  pub started-code :
      (env : Env) (inst : Instance) (tr : Transaction U) (s : Server U)
      → Reachable tran_of s
      → inst.id ≢ 0
      → inst.coroutine_id ≡ 0
      → inst.is_delay_destroying ≡ false
      → tran_of inst.type ≡ some tr
      → s.trans_map inst.id ≡ none
      → (start_transaction tran_of env inst s).1
        ≡ (create_work_routine env.mem env.coroutine_id inst.stack_size 1 inst.id s.scheduler).1
  unfolding start_transaction start add_tran_inst
  started-code env inst tr s r n c staying g e =
      let s1 : Server U = set_inst inst.id (some inst) s in
      let none_yet : (inst.coroutine_id == 0) ≡ true = rw c refl in
      let out : Scheduler × ℤ × Option ℕ → Type 0 =
        λ q. (keep_started tran_of inst.id (start_made tran_of env inst s1 q)).1 ≡ q.1 in
      rw (g, start_transaction, ==-ne inst.id 0 n, e, none_yet)
        (elim (create_work_routine-cases env.mem env.coroutine_id inst.stack_size 1 inst.id
          s.scheduler) [
            | inl (code, z, x) ↦ subst out (sym x) (rw z refl)
            | inr (co, nc, f, same_id, not_main, is_ready, x) ↦
                let (_, ok) =
                  start_on-run tran_of env s env.coroutine_id co inst tr n nc e f
                    (same_id, not_main, is_ready) staying g (Reachable-Idle tran_of r) in
                subst out (sym x) (rw ok refl)
          ])
