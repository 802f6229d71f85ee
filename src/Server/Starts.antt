-- ===== src/Server/Starts.antt =====
-- A transaction that is started: TransactionServer::StartTransaction and Transaction::Start.
use mathlib.Core.Path.{subst}
use coroutine_transaction.Base.{
  ℕ, ◌≡◌, ◌≢◌, ◌∙◌, refl, sym, ap, inl, inr, false, Option, none, some, ℤ, pos, ◌==◌, ℕ-cases,
  Bool-cases, Option-cases, ==-self, ==-ne, Bool, true, if◌then◌else◌,
}
use coroutine_transaction.Coroutine.{
  Coroutine, Scheduler, ready, set_coroutine, swap_to_work_routine,
}
use coroutine_transaction.Coroutine.Valid.{Valid}
use coroutine_transaction.Coroutine.Swap.{
  set_same, set_other, entered, entered-Valid, swap_to_work_routine-entered,
}
use coroutine_transaction.Coroutine.Made.{create_work_routine-cases, added-Valid}
use coroutine_transaction.Transaction.{Instance, World, Transaction}
use coroutine_transaction.Server.{Server, Env, set_inst, add_tran_inst, real_start, real_resume}
use coroutine_transaction.Server.Calls.{
  entry, start_swapped, start_on, start_made, start, keep_started, start_transaction,
}
use coroutine_transaction.Server.Kept.{KeepsRun}
use coroutine_transaction.Server.Entered.{real_start-Keeps, real_resume-Keeps}
use coroutine_transaction.Server.Idle.{Idle, Busy, Agrees, Rest-moved, Rest-fresh}
use coroutine_transaction.Server.Segment.{run_on-Idle}
use coroutine_transaction.Server.Sends.{Busy-entered}

module _ {U : Type 0} (tran_of : ℕ → Option (Transaction U)) where
  Idle-moved :
      (s t : Server U)
      → t.scheduler ≡ s.scheduler
      → Agrees tran_of 0 s t
      → Idle tran_of s
      → Idle tran_of t
  Idle-moved s t e g h = record {
    valid = subst Valid (sym e) h.valid;
    main = ap (λ (x : Scheduler). x.curr) e ∙ h.main;
    rest = Rest-moved tran_of 0 s t g h.rest;
  }

  -- An instance that does not run is taken out again.
  removed-Idle :
      (s : Server U) (id : ℕ) (a : Instance)
      → s.trans_map id ≡ none
      → Idle tran_of s
      → Idle tran_of (set_inst id none (set_inst id (some a) s))
  removed-Idle s id a e h =
      Idle-moved s (set_inst id none (set_inst id (some a) s)) refl
        (record {
          same_map = λ j. elim (ℕ-cases j id) [
            | inl n ↦ rw (n, ==-self id) (sym e)
            | inr n ↦ rw (==-ne j id n) refl
          ];
          same_coroutines = λ k n. refl;
          same_parks = λ k n. refl;
          same_list = refl;
        })
        h

  pub entry-Idle :
      (env : Env) (is_resume : Bool) (s : Server U) (id : ℕ) (inst : Instance) (tr : Transaction U)
      → id ≢ 0
      → s.trans_map id ≡ some inst
      → tran_of inst.type ≡ some tr
      → Busy tran_of s id inst
      → Idle tran_of (entry tran_of env is_resume id s)
  unfolding entry
  entry-Idle env is_resume s id inst tr n e f h =
      let w : World U = record { inst = inst; user = s.user } in
      rw (==-ne id 0 n, entry, e, f)
        (run_on-Idle tran_of tr env is_resume
          (if is_resume then real_resume tr w else real_start tr w) s id inst f h
          (elim is_resume
            as (λ b. KeepsRun tr.cmds inst (if b then real_resume tr w else real_start tr w)) [
              | true ↦ real_resume-Keeps tr w
              | false ↦ real_start-Keeps tr w
            ]))

  -- The coroutine that is made for the instance is entered, and runs to its first wait or its end.
  pub start_on-run :
      (env : Env) (s : Server U) (c : ℕ) (co : Coroutine) (inst : Instance) (tr : Transaction U)
      → inst.id ≢ 0
      → c ≢ 0
      → s.trans_map inst.id ≡ none
      → s.scheduler.coroutines c ≡ none
      → (co.id ≡ c) × (co.is_main ≡ false) × (co.state ≡ ready)
      → inst.is_delay_destroying ≡ false
      → tran_of inst.type ≡ some tr
      → Idle tran_of s
      → let s' = record (set_inst inst.id (some inst) s) {
        scheduler = set_coroutine c (some co) s.scheduler;
      } in
        let r = start_on tran_of env c inst s' in Idle tran_of r.0 × (r.1 ≡ pos 0)
  unfolding start_on
  start_on-run env s c co inst tr n nc e f (same_id, not_main, is_ready) staying g h =
      let id = inst.id in
      let b : Instance = record inst { coroutine_id = c } in
      let sch = set_coroutine c (some co) s.scheduler in
      let s1 : Server U =
        set_inst id (some b) (record (set_inst id (some inst) s) { scheduler = sch }) in
      let v = added-Valid s.scheduler c co h.valid nc f same_id not_main is_ready in
      let there = set_same c (some co) s.scheduler in
      let a : swap_to_work_routine c sch ≡ (entered c co sch, pos 0) =
        swap_to_work_routine-entered sch c co v h.main there (rw is_ready refl) in
      let t : Server U = record s1 { scheduler = entered c co sch } in
      let busy : Busy tran_of t id b =
        Busy-entered tran_of s t c id b co h (entered-Valid sch c co v h.main there) same_id nc
          (Rest-moved tran_of c s (set_inst id none s)
            (record {
              same_map = λ j. elim (ℕ-cases j id) [
                | inl m ↦ rw (m, ==-self id) (sym e)
                | inr m ↦ rw (==-ne j id m) refl
              ];
              same_coroutines = λ k m. refl;
              same_parks = λ k m. refl;
              same_list = refl;
            })
            (Rest-fresh tran_of c s f h.rest))
          (refl, refl, staying) (λ k m. set_other c _ sch k m ∙ set_other c _ s.scheduler k m)
          (λ j. elim (ℕ-cases j id) [
            | inl m ↦ rw (m, ==-self id) refl
            | inr m ↦ rw (==-ne j id m) refl
          ])
          refl refl in
      let runs = entry-Idle env false t id b tr n (rw (==-self id) refl) g busy in
      subst
        (λ r. (let u = start_swapped tran_of env c inst s1 r in Idle tran_of u.0 × (u.1 ≡ pos 0)))
        (sym a) (runs, refl)

  -- What Start and the caller's check do, once the instance is in the map.
  start-Idle :
      (env : Env) (s : Server U) (inst : Instance) (tr : Transaction U)
      → inst.id ≢ 0
      → s.trans_map inst.id ≡ none
      → inst.is_delay_destroying ≡ false
      → tran_of inst.type ≡ some tr
      → Idle tran_of s
      → Idle tran_of
          (keep_started tran_of inst.id (start tran_of env inst (set_inst inst.id (some inst) s))).0
  unfolding start
  start-Idle env s inst tr n e staying g h =
      let s1 : Server U = set_inst inst.id (some inst) s in
      let out : Scheduler × ℤ × Option ℕ → Type 0 =
        λ r. Idle tran_of (keep_started tran_of inst.id (start_made tran_of env inst s1 r)).0 in
      elim (Bool-cases (inst.coroutine_id == 0)) [
        | inr b ↦ rw (b, start) (removed-Idle s inst.id inst e h)
        | inl b ↦
            elim (create_work_routine-cases env.mem env.coroutine_id inst.stack_size 1 inst.id
              s.scheduler) [
                | inl (code, z, x) ↦
                    rw (b, start) (subst out (sym x) (rw z (removed-Idle s inst.id inst e h)))
                | inr (co, nc, f, same_id, not_main, is_ready, x) ↦
                    let (runs, ok) =
                      start_on-run env s env.coroutine_id co inst tr n nc e f
                        (same_id, not_main, is_ready) staying g h in
                    rw (b, start) (subst out (sym x) (rw ok runs))
              ]
      ]

  pub start_transaction-Idle :
      (env : Env) (inst : Instance) (s : Server U)
      → inst.is_delay_destroying ≡ false
      → Idle tran_of s
      → Idle tran_of (start_transaction tran_of env inst s).0
  unfolding start_transaction add_tran_inst
  start_transaction-Idle env inst s staying h = elim (Option-cases (tran_of inst.type)) [
    | inl g ↦ rw (g, start_transaction) h
    | inr (tr, g) ↦ elim (ℕ-cases inst.id 0) [
      | inl z ↦ rw (g, start_transaction, z) h
      | inr n ↦ elim (Option-cases (s.trans_map inst.id)) [
        | inr (x, e) ↦ rw (g, start_transaction, ==-ne inst.id 0 n, e) h
        | inl e ↦
            rw (g, start_transaction, ==-ne inst.id 0 n, e)
              (start-Idle env s inst tr n e staying g h)
      ]
    ]
  ]
