-- ===== src/Transaction/Wait/Events.antt =====
-- Command::WaitForEvent returns when every awaited event has come, in any order.
use coroutine_transaction.Base.{
  ℕ, ◌+◌, ◌≤◌, ◌≡◌, ◌≢◌, inl, inr, refl, sym, ap, ◌∙◌, true, false, Option, List, [], ◌∷◌, pos,
  arith, is_zero, ◌==◌, ==-self, ==-ne, if◌then◌else◌, Bool-cases, ℕ-cases,
}
use coroutine_transaction.Transaction.{World, Command, Transaction, error_svr_internal}
use coroutine_transaction.Transaction.Wait.{
  Answer, fails, delivers, returned, is_awaited, erase_first, receive, wait_for_event,
  proc_default_events, event_timeout, event_abort,
}

-- How often an event stands in a list, and among the answers.
abbrev pub once : ℕ → ℕ → ℕ
once v u = if v == u then 1 else 0

abbrev pub count : ℕ → List ℕ → ℕ
count v [] = 0
count v (e ∷ es) = once v e + count v es

abbrev pub deliveries : ℕ → List Answer → ℕ
deliveries v [] = 0
deliveries v (fails ∷ answers) = deliveries v answers
deliveries v (delivers u ∷ answers) = once v u + deliveries v answers

count-erase_first :
    (v u : ℕ) (es : List ℕ)
    → (count v es ≤ once v u + count v (erase_first u es))
      × (count v (erase_first u es) ≤ count v es)
count-erase_first v u [] = (omega arith, omega arith)
count-erase_first v u (e ∷ es) = let ih = count-erase_first v u es in ground arith

count-awaited :
    (v u : ℕ) (es : List ℕ)
    → is_awaited u es ≡ true
    → count v es ≡ once v u + count v (erase_first u es)
count-awaited v u [] a = cc a
count-awaited v u (e ∷ es) a = elim (ℕ-cases u e) [
  | inl q ↦ ground arith
  | inr n ↦
      let b : is_awaited u es ≡ true = ground arith in
      let ih = count-awaited v u es b in ground arith
]

count-missing :
    (v u : ℕ) (es : List ℕ) → is_awaited u es ≡ false → (erase_first u es ≡ es) × (count u es ≡ 0)
count-missing v u [] a = (refl, refl)
count-missing v u (e ∷ es) a = elim (ℕ-cases u e) [
  | inl q ↦ ground arith
  | inr n ↦
      let b : is_awaited u es ≡ false = ground arith in
      let ih = count-missing v u es b in ground arith
]

-- Waiting goes well: no call of Wait fails and no timeout comes.
abbrev pub Steady : List Answer → Type 0
Steady [] = Unit
Steady (fails ∷ answers) = ⊥
Steady (delivers u ∷ answers) = (u ≢ event_timeout) × Steady answers

module _ {U : Type 0} (tran : Option (Transaction U)) (cmd : Command U) where
  abbrev woken : ℕ → World U → World U
  woken u w = record w { inst = record (w.inst) { event_type = u } }

  step_on :
      (u e : ℕ) (es : List ℕ) (answers : List Answer) (w : World U)
      → is_zero (receive tran cmd u (e ∷ es) (woken u w)).1 ≡ true
      → wait_for_event tran cmd (e ∷ es) (delivers u ∷ answers) w
        ≡ wait_for_event tran cmd
            (erase_first u (e ∷ es))
            answers
            (receive tran cmd u (e ∷ es) (woken u w)).0
  unfolding wait_for_event
  step_on u e es answers w b = simp b

  step_out :
      (u e : ℕ) (es : List ℕ) (answers : List Answer) (w : World U)
      → is_zero (receive tran cmd u (e ∷ es) (woken u w)).1 ≡ false
      → wait_for_event tran cmd (e ∷ es) (delivers u ∷ answers) w
        ≡ returned
            (receive tran cmd u (e ∷ es) (woken u w)).0
            (receive tran cmd u (e ∷ es) (woken u w)).1
            answers
  unfolding wait_for_event
  step_out u e es answers w b = simp b

  -- If WaitForEvent returns 0, every awaited event was delivered at least as often as it is awaited.
  pub wait_for_event-count :
      (v : ℕ) (events : List ℕ) (answers rest : List Answer) (w w' : World U)
      → wait_for_event tran cmd events answers w ≡ returned w' (pos 0) rest
      → count v events ≤ deliveries v answers
  unfolding wait_for_event
  wait_for_event-count v [] answers rest w w' h = omega arith
  wait_for_event-count v (e ∷ es) [] rest w w' h = cc h
  wait_for_event-count v (e ∷ es) (fails ∷ answers) rest w w' h =
      let q : error_svr_internal ≡ pos 0 = cc h in absurd (ground arith)
  wait_for_event-count v (e ∷ es) (delivers u ∷ answers) rest w w' h =
      let ret = receive tran cmd u (e ∷ es) (woken u w) in
      elim (Bool-cases (is_zero ret.1)) [
        | inl b ↦
            let ih =
              wait_for_event-count v (erase_first u (e ∷ es)) answers rest ret.0 w'
                (sym (step_on u e es answers w b) ∙ h) in
            let (le, _) = count-erase_first v u (e ∷ es) in omega arith
        | inr b ↦
            let q : returned ret.0 ret.1 answers ≡ returned w' (pos 0) rest =
              sym (step_out u e es answers w b) ∙ h in
            let z : ret.1 ≡ pos 0 = cc q in cc (b, ap is_zero z)
      ]

  module _ (ok : (u : ℕ) (w : World U) → (cmd.on_recv_msg_event u w).1 ≡ pos 0) where
    receive-zero :
        (u : ℕ) (events : List ℕ) (w : World U)
        → u ≢ event_timeout
        → (receive tran cmd u events (woken u w)).1 ≡ pos 0
    unfolding receive proc_default_events
    receive-zero u events w n = elim (Bool-cases (is_awaited u events)) [
      | inl a ↦ rw a (ok u (woken u w))
      | inr a ↦
          let m = ==-ne u event_timeout n in
          elim (Bool-cases (u == event_abort)) [
            | inl b ↦ rw (a, b) refl
            | inr b ↦ rw (a, b, m) refl
          ]
    ]

    -- If no call of Wait fails, no timeout comes, OnRecvMsgEvent returns 0 and every awaited event is
    -- delivered at least as often as it is awaited, in any order and with other events between, then
    -- WaitForEvent returns 0.
    pub wait_for_event-returned :
        (events : List ℕ) (answers : List Answer) (w : World U)
        → Steady answers
        → ((v : ℕ) → count v events ≤ deliveries v answers)
        → (w' : World U) × (rest : List Answer) × (wait_for_event tran cmd events answers w
            ≡ returned w' (pos 0) rest)
    unfolding wait_for_event
    wait_for_event-returned [] answers w s enough = (w, answers, refl)
    wait_for_event-returned (e ∷ es) [] w s enough =
        let h = enough e in let q = ==-self e in absurd (ground arith)
    wait_for_event-returned (e ∷ es) (fails ∷ answers) w s enough = elim s [ ]
    wait_for_event-returned (e ∷ es) (delivers u ∷ answers) w s enough =
        let ret = receive tran cmd u (e ∷ es) (woken u w) in
        let zero : is_zero ret.1 ≡ true = rw (receive-zero u (e ∷ es) w s.0) refl in
        let (w', rest, q) =
          wait_for_event-returned (erase_first u (e ∷ es)) answers ret.0 s.1
            (λ v. less v u (e ∷ es) (deliveries v answers) (enough v) (enough u)) in
        (w', rest, step_on u e es answers w zero ∙ q)
      where
        less :
            (v u : ℕ) (events : List ℕ) (n : ℕ)
            → count v events ≤ once v u + n
            → count u events ≤ once u u + deliveries u answers
            → count v (erase_first u events) ≤ n
        less v u events n a b = elim (Bool-cases (is_awaited u events)) [
          | inl c ↦ omega (arith, count-awaited v u events c)
          | inr c ↦
              let (q, z) = count-missing v u events c in
              elim (ℕ-cases v u) [
                | inl p ↦ rw (q, p, z) (omega arith)
                | inr p ↦ rw q (let t = ==-ne v u p in ground arith)
              ]
        ]
