-- ===== src/Server/Resume/Recovery.antt =====
-- TranInstMgr::Resume (src/transaction/transaction_mgr.cpp) leaves a server between two calls.
use mathlib.Core.Path.{subst}
use coroutine_transaction.Base.{
  ℕ, ◌≡◌, ◌≢◌, ◌∙◌, refl, sym, ap, inl, inr, true, Option, none, some, List, [], ◌∷◌, ℤ, ℕ-cases,
  Option-cases, ==-self, ==-ne, All,
}
use coroutine_transaction.Coroutine.{Coroutine, ready, set_coroutine, swap_to_work_routine}
use coroutine_transaction.Coroutine.Valid.{Valid}
use coroutine_transaction.Coroutine.Swap.{
  set_same, set_other, id_ne_zero, entered, entered-Valid, swap_to_work_routine-entered,
}
use coroutine_transaction.Coroutine.Restart.{restart_coroutine-outcome}
use coroutine_transaction.Transaction.{Instance, Transaction}
use coroutine_transaction.Server.{Server, Env, set_inst, mark_delay_destroy}
use coroutine_transaction.Server.Idle.{Idle, Busy, Rest-moved, Rest-take, Rest-close}
use coroutine_transaction.Server.Sends.{Busy-entered}
use coroutine_transaction.Server.Starts.{entry-Idle}
use coroutine_transaction.Server.Resume.{
  resume_failed, resume_swapped, resume_restarted, resume_transaction, resume_instance, resume_all,
}

module _ {U : Type 0} (tran_of : ℕ → Option (Transaction U)) where
  -- The coroutine cannot be entered, and the instance leaves the map.
  resume_failed-Idle :
      (ret : ℤ) (s : Server U) (id : ℕ) (inst : Instance) (new : Coroutine)
      → s.trans_map id ≡ some inst
      → Idle tran_of s
      → let sch = set_coroutine inst.coroutine_id (some new) s.scheduler in
        Valid sch → Idle tran_of (resume_failed ret inst (record s { scheduler = sch })).0
  unfolding resume_failed mark_delay_destroy
  resume_failed-Idle ret s id inst new e h v =
      let (w, _) = h.rest.waits id inst e in
      let c = inst.coroutine_id in
      let sch = set_coroutine c (some new) s.scheduler in
      let t : Server U = set_inst inst.id none (record s { scheduler = sch }) in
      let left_alone =
        Rest-moved tran_of c (set_inst id none s) t
          (record {
            same_map = λ j. ap (λ k. (set_inst k none s).trans_map j) w.same_id;
            same_coroutines = λ k n. set_other c _ s.scheduler k n;
            same_parks = λ k n. refl;
            same_list = refl;
          })
          (Rest-take tran_of s id inst e h.rest) in
      let d : Instance = record inst {
        fail_index = inst.curr_index;
        fail_reason = ret;
        is_delay_destroying = true;
      } in
      rw (w.staying, ap s.trans_map w.same_id ∙ e)
        (record {
          valid = v;
          main = h.main;
          rest =
              Rest-close tran_of t d new v.no_zero (set_same c (some new) s.scheduler) left_alone;
        })

  -- The coroutine is entered anew, and runs to its next wait or its end.
  resume_entered-Idle :
      (env : Env) (s : Server U) (id : ℕ) (inst : Instance) (tr : Transaction U) (new : Coroutine)
      → id ≢ 0
      → s.trans_map id ≡ some inst
      → tran_of inst.type ≡ some tr
      → Idle tran_of s
      → new.state ≡ ready
      → let c = inst.coroutine_id in
        let sch = set_coroutine c (some new) s.scheduler in
        Valid sch
        → Idle tran_of
            (resume_swapped tran_of env inst
              (record s { scheduler = sch })
              (swap_to_work_routine c sch)).0
  resume_entered-Idle env s id inst tr new n e g h q v =
      let (w, _) = h.rest.waits id inst e in
      let c = inst.coroutine_id in
      let sch = set_coroutine c (some new) s.scheduler in
      let there = set_same c (some new) s.scheduler in
      let t : Server U = record s { scheduler = entered c new sch } in
      let busy : Busy tran_of t id inst =
        Busy-entered tran_of s t c id inst new h (entered-Valid sch c new v h.main there)
          (v.entries c new there).same_id (id_ne_zero v there)
          (Rest-take tran_of s id inst e h.rest) (w.same_id, refl, w.staying)
          (λ k m. set_other c _ sch k m ∙ set_other c _ s.scheduler k m)
          (λ j. elim (ℕ-cases j id) [
            | inl m ↦ rw (m, ==-self id) e
            | inr m ↦ rw (==-ne j id m) refl
          ])
          refl refl in
      let s1 : Server U = record s { scheduler = sch } in
      subst (λ r. Idle tran_of (resume_swapped tran_of env inst s1 r).0)
        (sym (swap_to_work_routine-entered sch c new v h.main there (rw q refl)))
        (rw w.same_id (entry-Idle tran_of env true t id inst tr n e g busy))

  resume_instance-Idle :
      (env : Env) (s : Server U) (id : ℕ) (inst : Instance)
      → id ≢ 0
      → s.trans_map id ≡ some inst
      → Idle tran_of s
      → Idle tran_of (resume_instance tran_of env inst s).0
  unfolding resume_instance resume_transaction resume_restarted
  resume_instance-Idle env s id inst n e h =
      let (w, _) = h.rest.waits id inst e in
      let (co, f, q) = w.stack in
      let (p, tr, cmd, _, g, _) = w.park in
      let (new, code, x, v, o) =
        restart_coroutine-outcome env.mem inst.coroutine_id 2 inst.id s.scheduler co h.valid h.main
          f q in
      rw (g, resume_instance)
        (subst (λ r. Idle tran_of (resume_restarted tran_of env inst s r).0) (sym x)
          (elim o [
            | inl (a, z) ↦ rw z (resume_entered-Idle env s id inst tr new n e g h a v)
            | inr (_, z) ↦ rw z (resume_failed-Idle code s id inst new e h v)
          ]))

  -- Resuming the instances of the map in any order leaves a server between two calls; the ids are not 0.
  pub resume_all-Idle :
      (ids : List (Env × ℕ)) (s : Server U)
      → All (λ (x : Env × ℕ). x.1 ≢ 0) ids
      → Idle tran_of s
      → Idle tran_of (resume_all tran_of ids s)
  unfolding resume_all
  resume_all-Idle [] s _ h = h
  resume_all-Idle ((env, id) ∷ ids) s (n, ns) h = elim (Option-cases (s.trans_map id)) [
    | inl e ↦ rw (e, resume_all) (resume_all-Idle ids s ns h)
    | inr (inst, e) ↦
        rw (e, resume_all)
          (resume_all-Idle ids (resume_instance tran_of env inst s).0 ns
            (resume_instance-Idle env s id inst n e h))
  ]
