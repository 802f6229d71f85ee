-- ===== src/Server/Sends.antt =====
-- Events sent to an instance that waits: TransactionInstance::SendMsgEvent and its callers.
use mathlib.Core.Path.{subst}
use coroutine_transaction.Base.{
  ℕ, ◌≡◌, ◌≢◌, ◌∙◌, refl, sym, ap, ◌⊎◌, inl, inr, true, false, not, ◌&&◌, Option, none, some, ℤ,
  pos, is_zero, ◌==◌, if◌then◌else◌, ℕ-cases, Bool-cases, Option-cases, ==-self, ==-ne,
}
use coroutine_transaction.Coroutine.{Coroutine, Scheduler}
use coroutine_transaction.Coroutine.Valid.{Valid}
use coroutine_transaction.Coroutine.Swap.{
  set_other, entered, entered-Valid, swap_to_work_routine-entered, id_ne_zero,
}
use coroutine_transaction.Timer.{TimerMgr}
use coroutine_transaction.Timer.Register.{destroy_timer}
use coroutine_transaction.Transaction.{
  Instance, World, Transaction, error_logic, error_invalid_para,
}
use coroutine_transaction.Transaction.Wait.{delivers, event_timeout}
use coroutine_transaction.Server.{Server, Env, Park, set_inst, resume_at}
use coroutine_transaction.Server.Calls.{
  is_refused, stop_timer, wake, send_msg_event, send_msg_event_to_tran, transaction_on_timeout,
}
use coroutine_transaction.Server.Kept.{Same}
use coroutine_transaction.Server.Entered.{resume_at-Keeps}
use coroutine_transaction.Server.Idle.{Rest, Idle, Busy, Rest-moved, Rest-put, Rest-take}
use coroutine_transaction.Server.Segment.{run_on-Idle}

module _ {U : Type 0} (tran_of : ℕ → Option (Transaction U)) where
  -- The coroutine `c` is entered for the instance `b`.
  pub Busy-entered :
      (s t : Server U) (c id : ℕ) (b : Instance) (co : Coroutine)
      → Idle tran_of s
      → Valid t.scheduler
      → t.scheduler.curr ≡ c
      → c ≢ 0
      → Rest tran_of c (set_inst id none s)
      → (b.id ≡ id) × (b.coroutine_id ≡ c) × (b.is_delay_destroying ≡ false)
      → ((k : ℕ) → k ≢ c → t.scheduler.coroutines k ≡ s.scheduler.coroutines k)
      → ((j : ℕ) → t.trans_map j ≡ (set_inst id (some b) s).trans_map j)
      → t.parks ≡ s.parks
      → t.destroy_list ≡ s.destroy_list
      → Busy tran_of t id b
  Busy-entered s t c id b co h v at_c nz r (p, q, d) g m k l = record {
    valid = v;
    work = λ u. nz (sym at_c ∙ u);
    inside = at_c ∙ sym q;
    same_id = p;
    staying = d;
    present = (b, m id ∙ (rw (==-self id) refl));
    rest =
        subst (λ u. Rest tran_of u (set_inst id none t)) (sym q)
          (Rest-moved tran_of c (set_inst id none s) (set_inst id none t)
            (record {
              same_map = λ j. elim (ℕ-cases j id) [
                | inl n ↦ rw (n, ==-self id) refl
                | inr n ↦ rw (==-ne j id n) (m j ∙ (rw (==-ne j id n) refl))
              ];
              same_coroutines = g;
              same_parks = λ x n. ap (λ (f : ℕ → Option Park). f x) k;
              same_list = l;
            })
            r);
  }

  wake-Idle :
      (env : Env) (v : ℕ) (s : Server U) (id : ℕ) (inst : Instance) (p : Park) (tr : Transaction U)
      → s.parks inst.coroutine_id ≡ some p
      → tran_of inst.type ≡ some tr
      → Busy tran_of s id inst
      → Idle tran_of (wake tran_of env v inst s)
  unfolding wake
  wake-Idle env v s id inst p tr e f h =
      let w : World U = record { inst = inst; user = s.user } in
      rw (e, wake, f)
        (run_on-Idle tran_of tr env (resume_at tr p.is_resume p.index p.events (delivers v) w).0
          (resume_at tr p.is_resume p.index p.events (delivers v) w).1 s id inst f h
          (resume_at-Keeps tr p.is_resume p.index p.events (delivers v) w))

  -- The wait goes on without a timer.
  kept_waiting :
      (s : Server U) (id : ℕ) (a b : Instance) (timers : TimerMgr)
      → Idle tran_of s
      → s.trans_map id ≡ some a
      → Same a b
      → Idle tran_of (set_inst id (some b) (record s { timers = timers }))
  kept_waiting s id a b timers h e same =
      let t : Server U = set_inst id (some b) (record s { timers = timers }) in
      let (w, _) = h.rest.waits id a e in
      let (co, f, q) = w.stack in
      let (p, tr, cmd, g, k, l) = w.park in
      record {
        valid = h.valid;
        main = h.main;
        rest =
            Rest-put tran_of t id b h.valid.no_zero (rw (==-self id) refl)
              (record {
                same_id = same.0 ∙ w.same_id;
                staying = same.3 ∙ w.staying;
                stack = (co, ap s.scheduler.coroutines same.1 ∙ f, q);
                park = (p, tr, cmd, ap s.parks same.1 ∙ g, ap tran_of same.2 ∙ k, l);
              })
              (subst (λ c. Rest tran_of c (set_inst id none t)) (sym same.1)
                (Rest-moved tran_of a.coroutine_id (set_inst id none s) (set_inst id none t)
                  (record {
                    same_map = λ j. elim (ℕ-cases j id) [
                      | inl n ↦ rw (n, ==-self id) refl
                      | inr n ↦ rw (==-ne j id n) refl
                    ];
                    same_coroutines = λ c n. refl;
                    same_parks = λ c n. refl;
                    same_list = refl;
                  })
                  (Rest-take tran_of s id a e h.rest)));
      }

  -- What SendMsgEvent does with an instance that waits.
  abbrev pub SendOutcome : Env → ℕ → ℕ → Instance → Server U → Server U × ℤ → Type 0
  SendOutcome env v id inst s r =
      ((v ≡ 0) × (r ≡ (s, error_invalid_para)))
      ⊎ ((timers : TimerMgr) × (v ≢ 0)
          × (is_refused v inst ≡ true)
          × (r ≡ (
            set_inst id (some (record inst { timer_id = 0 })) (record s { timers = timers }),
            error_logic,
          )))
      ⊎ ((t : Server U) × (told : Instance) × (v ≢ 0)
          × (is_refused v inst ≡ false)
          × Same inst told
          × Busy tran_of t id told
          × (t.parks ≡ s.parks)
          × (r ≡ (wake tran_of env v told t, pos 0)))

  stop_timer-timers :
      (v : ℕ) (inst : Instance) (s : Server U)
      → (timers : TimerMgr) × (stop_timer v inst s ≡ record s { timers = timers })
  stop_timer-timers v inst s =
      elim (Bool-cases (not (v == event_timeout) && not (inst.timer_id == 0))) [
        | inl b ↦ ((destroy_timer inst.timer_id s.timers).0, rw b refl)
        | inr b ↦ (s.timers, rw b refl)
      ]

  pub send_msg_event-outcome :
      (env : Env) (v id : ℕ) (inst : Instance) (s : Server U)
      → Idle tran_of s
      → s.trans_map id ≡ some inst
      → SendOutcome env v id inst s (send_msg_event tran_of env v inst s)
  unfolding send_msg_event
  send_msg_event-outcome env v id inst s h e =
      let (w, _) = h.rest.waits id inst e in
      let (co, f, q) = w.stack in
      let (timers, x) = stop_timer-timers v inst s in
      let told : Instance = record inst { timer_id = 0; event_type = v } in
      let en = h.valid.entries inst.coroutine_id co f in
      let a =
        swap_to_work_routine-entered s.scheduler inst.coroutine_id co h.valid h.main f
          (rw q refl) in
      let idle : Server U =
        set_inst inst.id (some (record inst { timer_id = 0 })) (record s { timers = timers }) in
      let t : Server U =
        set_inst inst.id (some told)
          (record idle { scheduler = entered inst.coroutine_id co s.scheduler }) in
      let after : Scheduler × ℤ → Server U × ℤ = λ r.
        (let s2 = set_inst inst.id (some told) (record idle { scheduler = r.0 }) in
          if not (is_zero r.1) then (s2, r.1) else (wake tran_of env v told s2, pos 0)) in
      elim (ℕ-cases v 0) [
        | inl z ↦ inl (z, rw (z, send_msg_event) refl)
        | inr z ↦ elim (Bool-cases (is_refused v inst)) [
          | inl b ↦ inr (inl (timers, z, b, rw (==-ne v 0 z, b, x, w.same_id) refl))
          | inr b ↦ inr (
              inr (
                t,
                told,
                z,
                b,
                (refl, refl, refl, refl),
                Busy-entered s t inst.coroutine_id id told co h
                    (entered-Valid s.scheduler inst.coroutine_id co h.valid h.main f) en.same_id
                    (id_ne_zero h.valid f) (Rest-take tran_of s id inst e h.rest)
                    (w.same_id, refl, w.staying)
                    (λ k n. set_other inst.coroutine_id _ s.scheduler k n)
                    (λ j. elim (ℕ-cases j id) [
                      | inl n ↦ rw (w.same_id, n, ==-self id) refl
                      | inr n ↦ rw (w.same_id, ==-ne j id n) refl
                    ])
                    refl refl,
                refl,
                rw (==-ne v 0 z, b, x) (ap after a),
              ))
        ]
      ]

  send_msg_event-Idle :
      (env : Env) (v id : ℕ) (inst : Instance) (s : Server U)
      → Idle tran_of s
      → s.trans_map id ≡ some inst
      → Idle tran_of (send_msg_event tran_of env v inst s).0
  send_msg_event-Idle env v id inst s h e =
      let (w, _) = h.rest.waits id inst e in
      elim (send_msg_event-outcome env v id inst s h e) [
        | inl (_, f) ↦ rw f h
        | inr (inl (timers, _, _, f)) ↦
            rw f (kept_waiting s id inst _ timers h e (refl, refl, refl, refl))
        | inr (inr (t, told, _, _, same, busy, g, f)) ↦
            let (p, tr, cmd, k, l, m) = w.park in
            rw f (
              wake-Idle env v t id told p tr
                (ap (λ (x : ℕ → Option Park). x told.coroutine_id) g ∙ ap s.parks same.1 ∙ k)
                (ap tran_of same.2 ∙ l) busy)
      ]

  pub send_msg_event_to_tran-Idle :
      (env : Env) (id v : ℕ) (s : Server U)
      → Idle tran_of s
      → Idle tran_of (send_msg_event_to_tran tran_of env id v s).0
  unfolding send_msg_event_to_tran
  send_msg_event_to_tran-Idle env id v s h = elim (ℕ-cases id 0) [
    | inl z ↦ rw (z, send_msg_event_to_tran) h
    | inr n ↦ elim (Option-cases (s.trans_map id)) [
      | inl e ↦ rw (==-ne id 0 n, e) h
      | inr (inst, e) ↦ rw (==-ne id 0 n, e) (send_msg_event-Idle env v id inst s h e)
    ]
  ]

  pub transaction_on_timeout-Idle :
      (env : Env) (id : ℕ) (s : Server U)
      → Idle tran_of s
      → Idle tran_of (transaction_on_timeout tran_of env id s)
  unfolding transaction_on_timeout
  transaction_on_timeout-Idle env id s h = elim (Option-cases (s.trans_map id)) [
    | inl e ↦ rw (e, transaction_on_timeout) h
    | inr (inst, e) ↦
        rw (e, transaction_on_timeout) (send_msg_event-Idle env event_timeout id inst s h e)
  ]
