-- ===== src/Server/Kept.antt =====
-- What the run of a coroutine leaves of its instance: the library's own fields.
use coroutine_transaction.Base.{
  Bool, true, false, ℕ, zero, suc, ◌≡◌, ◌∙◌, refl, inl, inr, Bool, true, false, not, ◌||◌, Option,
  some, List, [], ◌∷◌, ℤ, is_zero, if◌then◌else◌, get_elem?, drop, Bool-cases, Option-cases, ◌==◌,
}
use mathlib.Core.Path.{subst}
use coroutine_transaction.Transaction.{Instance, World, Command, Transaction, call_code}
use coroutine_transaction.Transaction.Wait.{
  Answer, fails, delivers, Progress, waiting, returned, wait_for_event, receive, erase_first,
  proc_default_events, is_awaited, command_at, event_abort, event_timeout,
}
use coroutine_transaction.Transaction.Run.{
  Run, parked, ended, is_failed, is_empty, at_command, after_command, command_wait, do_and_wait,
  run_commands,
}

-- The fields by which the server knows an instance are as they were.
abbrev pub Same : Instance → Instance → Type 0
Same a b =
    (b.id ≡ a.id)
    × (b.coroutine_id ≡ a.coroutine_id)
    × (b.type ≡ a.type)
    × (b.is_delay_destroying ≡ a.is_delay_destroying)

pub Same-trans : (a b c : Instance) → Same a b → Same b c → Same a c
Same-trans a b c p q = (q.0 ∙ p.0, q.1 ∙ p.1, q.2 ∙ p.2, q.3 ∙ p.3)

abbrev pub KeepsProgress : {U : Type 0} → Instance → Progress U → Type 0
KeepsProgress a (waiting w events) = Same a w.inst × (is_empty events ≡ false)
KeepsProgress a (returned w _ _) = Same a w.inst

-- The instance is the same, and a coroutine that waits stands at one of the commands with an event.
abbrev pub KeepsRun : {U : Type 0} → List (Command U) → Instance → Run U → Type 0
KeepsRun {U} cmds a (parked i events w) =
    Same a w.inst × (is_empty events ≡ false) × ((cmd : Command U) × (get_elem? cmds i ≡ some cmd))
KeepsRun cmds a (ended w _) = Same a w.inst

module _ {U : Type 0} where
  KeepsProgress-from :
      (a b : Instance) (p : Progress U) → Same a b → KeepsProgress b p → KeepsProgress a p
  KeepsProgress-from a b (waiting w _) s (k, f) = (Same-trans a b w.inst s k, f)
  KeepsProgress-from a b (returned w _ _) s k = Same-trans a b w.inst s k

  pub KeepsRun-from :
      (cmds : List (Command U)) (a b : Instance) (r : Run U)
      → Same a b
      → KeepsRun cmds b r
      → KeepsRun cmds a r
  KeepsRun-from cmds a b (parked i _ w) s (k, f, c) = (Same-trans a b w.inst s k, f, c)
  KeepsRun-from cmds a b (ended w _) s k = Same-trans a b w.inst s k

  proc_default_events-Same :
      (tran : Option (Transaction U)) (w : World U)
      → Same w.inst (proc_default_events tran w).0.inst
  unfolding proc_default_events
  proc_default_events-Same tran w = elim (Bool-cases (w.inst.event_type == event_abort)) [
    | inl a ↦ rw (a, proc_default_events) (refl, refl, refl, refl)
    | inr a ↦ elim (Bool-cases (w.inst.event_type == event_timeout)) [
      | inr b ↦ rw (a, b, proc_default_events) (refl, refl, refl, refl)
      | inl b ↦ elim (Option-cases tran) [
        | inl e ↦ rw (a, b, e, proc_default_events) (refl, refl, refl, refl)
        | inr (tr, e) ↦ elim (Option-cases (command_at tr.cmds w.inst.curr_index)) [
          | inl f ↦ rw (a, b, e, proc_default_events, f) (refl, refl, refl, refl)
          | inr (cmd, f) ↦ rw (a, b, e, proc_default_events, f) (refl, refl, refl, refl)
        ]
      ]
    ]
  ]

  receive-Same :
      (tran : Option (Transaction U)) (cmd : Command U) (v : ℕ) (events : List ℕ) (w : World U)
      → Same w.inst (receive tran cmd v events w).0.inst
  unfolding receive
  receive-Same tran cmd v events w = elim (Bool-cases (is_awaited v events)) [
    | inl b ↦ rw b (refl, refl, refl, refl)
    | inr b ↦ rw b (proc_default_events-Same tran w)
  ]

  pub wait_for_event-Same :
      (tran : Option (Transaction U)) (cmd : Command U) (events : List ℕ) (answers : List Answer)
      (w : World U)
      → KeepsProgress w.inst (wait_for_event tran cmd events answers w)
  unfolding wait_for_event
  wait_for_event-Same tran cmd [] answers w = (refl, refl, refl, refl)
  wait_for_event-Same tran cmd (e ∷ es) [] w = ((refl, refl, refl, refl), refl)
  wait_for_event-Same tran cmd (e ∷ es) (fails ∷ answers) w = (refl, refl, refl, refl)
  wait_for_event-Same tran cmd (e ∷ es) (delivers v ∷ answers) w =
      let w1 : World U = record w { inst = record (w.inst) { event_type = v } } in
      let ret = receive tran cmd v (e ∷ es) w1 in
      let same : Same w.inst ret.0.inst = receive-Same tran cmd v (e ∷ es) w1 in
      let ih = wait_for_event-Same tran cmd (erase_first v (e ∷ es)) answers ret.0 in
      elim (Bool-cases (is_zero ret.1)) [
        | inl b ↦ rw b (KeepsProgress-from w.inst ret.0.inst _ same ih)
        | inr b ↦ rw b same
      ]

  pub KeepsProgress-if :
      (a : Instance) (b : Bool) (p q : Progress U)
      → KeepsProgress a p
      → KeepsProgress a q
      → KeepsProgress a (if b then p else q)
  KeepsProgress-if a true p q h k = h
  KeepsProgress-if a false p q h k = k

  do_and_wait-Same :
      (tran : Option (Transaction U)) (cmd : Command U) (answers : List Answer) (w : World U)
      → KeepsProgress w.inst (do_and_wait tran cmd answers w)
  unfolding do_and_wait command_wait
  do_and_wait-Same tran cmd answers w =
      let ret = call_code cmd.do_command w in
      let same : Same w.inst ret.0.inst = (refl, refl, refl, refl) in
      KeepsProgress-if w.inst (not (is_zero ret.1)) _ _ same (
        KeepsProgress-if w.inst (not ret.0.inst.should_wait_current_cmd) _ _ same (
          KeepsProgress-if w.inst (is_empty cmd.do_event_ids) _ _ same (
            KeepsProgress-from w.inst ret.0.inst
              (wait_for_event tran cmd cmd.do_event_ids answers ret.0) same
              (wait_for_event-Same tran cmd cmd.do_event_ids answers ret.0))))

  pub after_command-Keeps :
      (cmds : List (Command U)) (a : Instance) (i : ℕ) (code : ℤ) (answers : List Answer)
      (w : World U) (rest : Run U)
      → Same a w.inst
      → KeepsRun cmds a rest
      → KeepsRun cmds a (after_command i code answers w rest)
  after_command-Keeps cmds a i code answers w rest s k =
      elim (Bool-cases (not (is_zero code) || is_failed w.inst)) [
        | inl b ↦ rw b s
        | inr b ↦ elim (Bool-cases w.inst.is_complete) [ inl c ↦ rw (b, c) s | inr c ↦ rw (b, c) k ]
      ]

  get_elem?-drop :
      (all rest : List (Command U)) (i : ℕ) (c : Command U)
      → drop i all ≡ c ∷ rest
      → (get_elem? all i ≡ some c) × (drop (suc i) all ≡ rest)
  get_elem?-drop [] rest zero c e = cc e
  get_elem?-drop [] rest (suc i) c e = cc e
  get_elem?-drop (x ∷ all) rest zero c e = (cc e, cc e)
  get_elem?-drop (x ∷ all) rest (suc i) c e = get_elem?-drop all rest i c e

  -- The loop over the commands of `all` from the index `i` on.
  pub run_commands-Keeps :
      (tran : Option (Transaction U)) (all cmds : List (Command U)) (i : ℕ) (answers : List Answer)
      (w : World U)
      → drop i all ≡ cmds
      → KeepsRun all w.inst (run_commands tran cmds i answers w)
  unfolding run_commands
  run_commands-Keeps tran all [] i answers w e = (refl, refl, refl, refl)
  run_commands-Keeps tran all (cmd ∷ cmds) i answers w e =
      after (do_and_wait tran cmd answers (at_command i w)) refl
        (do_and_wait-Same tran cmd answers (at_command i w))
        (λ left w'.
          run_commands-Keeps tran all cmds (suc i) left w' (get_elem?-drop all cmds i cmd e).1)
    where
      after :
          (p : Progress U)
          → do_and_wait tran cmd answers (at_command i w) ≡ p
          → KeepsProgress w.inst (do_and_wait tran cmd answers (at_command i w))
          → ((left : List Answer) (w' : World U)
              → KeepsRun all w'.inst (run_commands tran cmds (suc i) left w'))
          → KeepsRun all w.inst (run_commands tran (cmd ∷ cmds) i answers w)
      after (waiting w' events) q s go =
          let (same, f) = subst (KeepsProgress w.inst) q s in
          rw (q, run_commands) (same, f, (cmd, (get_elem?-drop all cmds i cmd e).0))
      after (returned w' code left) q s go =
          let same : Same w.inst w'.inst = subst (KeepsProgress w.inst) q s in
          rw (q, run_commands)
            (after_command-Keeps all w.inst i code left w' (run_commands tran cmds (suc i) left w')
              same (KeepsRun-from all w.inst w'.inst _ same (go left w')))
