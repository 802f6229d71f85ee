-- ===== src/Server/Idle.antt =====
-- The server between two calls: every instance of the map has a coroutine that waits.
use mathlib.Core.Path.{subst}
use coroutine_transaction.Base.{
  All-map, All-append, ℕ, ◌≡◌, ◌≢◌, ◌∙◌, sym, ap, inl, inr, false, Option, none, some, [], ◌∷◌,
  ◌++◌, get_elem?, ℕ-cases, ==-self, ==-ne, All,
}
use coroutine_transaction.Coroutine.{Coroutine, suspend}
use coroutine_transaction.Coroutine.Valid.{Valid}
use coroutine_transaction.Transaction.{Instance, Command, Transaction}
use coroutine_transaction.Server.{Server, Park, set_inst}

module _ {U : Type 0} (tran_of : ℕ → Option (Transaction U)) where
  -- The instance's coroutine is suspended at one of the commands of its transaction.
  pub record Waits (s : Server U) (id : ℕ) (inst : Instance) : Type 0 where
    pub same_id : inst.id ≡ id
    pub staying : inst.is_delay_destroying ≡ false
    pub stack :
        (co : Coroutine) × (s.scheduler.coroutines inst.coroutine_id ≡ some co)
        × (co.state ≡ suspend)
    pub park :
        (p : Park) × (tr : Transaction U) × (cmd : Command U) × (s.parks inst.coroutine_id ≡ some p)
        × (tran_of inst.type ≡ some tr)
        × (get_elem? tr.cmds p.index ≡ some cmd)

  -- An instance that has ended: its coroutine is still there, and no other one waits on it.
  abbrev pub Ended : ℕ → Server U → Instance → Type 0
  Ended c s d =
      ((co : Coroutine) × (s.scheduler.coroutines d.coroutine_id ≡ some co))
      × (d.coroutine_id ≢ c)
      × ((j : ℕ) (b : Instance) → s.trans_map j ≡ some b → b.coroutine_id ≢ d.coroutine_id)

  -- The instances of the map wait, each on a coroutine of its own that is not `c`.
  pub record Rest (c : ℕ) (s : Server U) : Type 0 where
    pub waits : (j : ℕ) (b : Instance) → s.trans_map j ≡ some b → Waits s j b × (b.coroutine_id ≢ c)
    pub apart :
        (i j : ℕ) (a b : Instance)
        → s.trans_map i ≡ some a
        → s.trans_map j ≡ some b
        → a.coroutine_id ≡ b.coroutine_id
        → i ≡ j
    pub ended : All (Ended c s) s.destroy_list

  pub record Idle (s : Server U) : Type 0 where
    pub valid : Valid s.scheduler
    pub main : s.scheduler.curr ≡ 0
    pub rest : Rest 0 s

  -- The coroutine of `inst` runs.
  pub record Busy (s : Server U) (id : ℕ) (inst : Instance) : Type 0 where
    pub valid : Valid s.scheduler
    pub work : s.scheduler.curr ≢ 0
    pub inside : s.scheduler.curr ≡ inst.coroutine_id
    pub same_id : inst.id ≡ id
    pub staying : inst.is_delay_destroying ≡ false
    pub present : (old : Instance) × (s.trans_map id ≡ some old)
    pub rest : Rest inst.coroutine_id (set_inst id none s)

  -- The two servers differ in the coroutine `c` only.
  pub record Agrees (c : ℕ) (s t : Server U) : Type 0 where
    pub same_map : (j : ℕ) → t.trans_map j ≡ s.trans_map j
    pub same_coroutines : (k : ℕ) → k ≢ c → t.scheduler.coroutines k ≡ s.scheduler.coroutines k
    pub same_parks : (k : ℕ) → k ≢ c → t.parks k ≡ s.parks k
    pub same_list : t.destroy_list ≡ s.destroy_list

  Waits-moved :
      (s t : Server U) (j : ℕ) (b : Instance)
      → t.scheduler.coroutines b.coroutine_id ≡ s.scheduler.coroutines b.coroutine_id
      → t.parks b.coroutine_id ≡ s.parks b.coroutine_id
      → Waits s j b
      → Waits t j b
  Waits-moved s t j b e f w =
      let (co, a, q) = w.stack in
      let (p, tr, cmd, g, h, k) = w.park in
      record {
        same_id = w.same_id;
        staying = w.staying;
        stack = (co, e ∙ a, q);
        park = (p, tr, cmd, f ∙ g, h, k);
      }

  pub Rest-moved : (c : ℕ) (s t : Server U) → Agrees c s t → Rest c s → Rest c t
  Rest-moved c s t g r = record {
    waits = λ j b e.
        (let (w, n) = r.waits j b (sym (g.same_map j) ∙ e) in
          (
            Waits-moved s t j b (g.same_coroutines b.coroutine_id n) (g.same_parks b.coroutine_id n)
                w,
            n,
          ));
    apart = λ i j a b e f. r.apart i j a b (sym (g.same_map i) ∙ e) (sym (g.same_map j) ∙ f);
    ended = subst (All (Ended c t)) (sym g.same_list) (
        All-map _ _ s.destroy_list
          (λ d h.
            (let ((co, e), n, away) = h in
              (
                (co, g.same_coroutines d.coroutine_id n ∙ e),
                n,
                λ j b f. away j b (sym (g.same_map j) ∙ f),
              )))
          r.ended);
  }

  -- The map without `id`, at another number.
  set_inst-some :
      (id : ℕ) (s : Server U) (j : ℕ) (b : Instance)
      → (set_inst id none s).trans_map j ≡ some b
      → (j ≢ id) × (s.trans_map j ≡ some b)
  set_inst-some id s j b e = elim (ℕ-cases j id) [
    | inl q ↦ (let e' = (rw (q, ==-self id) at e) in cc e')
    | inr n ↦ (n, (rw (==-ne j id n) at e))
  ]

  -- An instance leaves the map while its coroutine runs.
  pub Rest-take :
      (s : Server U) (id : ℕ) (a : Instance)
      → s.trans_map id ≡ some a
      → Rest 0 s
      → Rest a.coroutine_id (set_inst id none s)
  Rest-take s id a e r = record {
    waits = λ j b f.
        (let (n, f') = set_inst-some id s j b f in
          let (w, _) = r.waits j b f' in
          (
            record { same_id = w.same_id; staying = w.staying; stack = w.stack; park = w.park },
            λ q. n (r.apart j id b a f' e q),
          ));
    apart =
        λ i j x y f g. r.apart i j x y (set_inst-some id s i x f).1 (set_inst-some id s j y g).1;
    ended =
        All-map _ _ s.destroy_list
          (λ d h.
            (let (co, _, away) = h in
              (co, λ q. away id a e (sym q), λ j b f. away j b (set_inst-some id s j b f).1)))
          r.ended;
  }

  one_coroutine :
      (t : Server U) (id : ℕ) (b : Instance) (j : ℕ) (x : Instance)
      → t.trans_map id ≡ some b
      → t.trans_map j ≡ some x
      → j ≡ id
      → x.coroutine_id ≡ b.coroutine_id
  one_coroutine t id b j x e f q =
      let same : x ≡ b = cc (e, f, ap t.trans_map q) in ap (λ (v : Instance). v.coroutine_id) same

  -- It comes back once its coroutine waits.
  pub Rest-put :
      (t : Server U) (id : ℕ) (b : Instance)
      → t.scheduler.coroutines 0 ≡ none
      → t.trans_map id ≡ some b
      → Waits t id b
      → Rest b.coroutine_id (set_inst id none t)
      → Rest 0 t
  Rest-put t id b z e w r =
      let out : (j : ℕ) → j ≢ id → (set_inst id none t).trans_map j ≡ t.trans_map j =
        λ j n. rw (==-ne j id n) in
      record {
        waits = λ j x f. elim (ℕ-cases j id) [
          | inr n ↦
              (let (v, _) = r.waits j x (out j n ∙ f) in
                (
                  record {
                    same_id = v.same_id;
                    staying = v.staying;
                    stack = v.stack;
                    park = v.park;
                  },
                  λ q. (let (co, a, _) = v.stack in cc (z, a, ap t.scheduler.coroutines q)),
                ))
          | inl q ↦
              (let same : b ≡ x = cc (e, f, ap t.trans_map q) in
                (
                  subst (λ y. Waits t j y) same (subst (λ k. Waits t k b) (sym q) w),
                  λ u.
                      (let (co, a, _) = w.stack in
                        cc (
                          z,
                          a,
                          ap (λ (y : Instance). t.scheduler.coroutines y.coroutine_id) same,
                          ap t.scheduler.coroutines u,
                        )),
                ))
        ];
        apart = λ i j x y f g same. elim (ℕ-cases i id) [
          | inl p ↦ elim (ℕ-cases j id) [
            | inl q ↦ p ∙ sym q
            | inr n ↦
                absurd ((r.waits j y (out j n ∙ g)).1 (sym same ∙ one_coroutine t id b i x e f p))
          ]
          | inr m ↦ elim (ℕ-cases j id) [
            | inl q ↦ absurd ((r.waits i x (out i m ∙ f)).1 (same ∙ one_coroutine t id b j y e g q))
            | inr n ↦ r.apart i j x y (out i m ∙ f) (out j n ∙ g) same
          ]
        ];
        ended =
            All-map _ _ t.destroy_list
              (λ d h.
                (let ((co, a), n, away) = h in
                  (
                    (co, a),
                    λ q. cc (z, a, ap t.scheduler.coroutines q),
                    λ j x f. elim (ℕ-cases j id) [
                      | inr m ↦ away j x (out j m ∙ f)
                      | inl q ↦ λ u. n (sym u ∙ one_coroutine t id b j x e f q)
                    ],
                  )))
              r.ended;
      }

  -- A coroutine that is new is nobody's.
  pub Rest-fresh : (c : ℕ) (s : Server U) → s.scheduler.coroutines c ≡ none → Rest 0 s → Rest c s
  Rest-fresh c s z r = record {
    waits = λ j b e.
        (let (w, _) = r.waits j b e in
          (w, λ q. (let (co, a, _) = w.stack in cc (z, a, ap s.scheduler.coroutines q))));
    apart = r.apart;
    ended =
        All-map _ _ s.destroy_list
          (λ d h.
            (let ((co, a), _, away) = h in
              ((co, a), λ q. cc (z, a, ap s.scheduler.coroutines q), away)))
          r.ended;
  }

  -- An instance ends: its coroutine `d.coroutine_id` is left to Update.
  pub Rest-close :
      (s : Server U) (d : Instance) (co : Coroutine)
      → s.scheduler.coroutines 0 ≡ none
      → s.scheduler.coroutines d.coroutine_id ≡ some co
      → Rest d.coroutine_id s
      → Rest 0 (record s { destroy_list = s.destroy_list ++ (d ∷ []) })
  Rest-close s d co z e r = record {
    waits = λ j b f.
        (let (w, _) = r.waits j b f in
          (
            record { same_id = w.same_id; staying = w.staying; stack = w.stack; park = w.park },
            λ q. (let (x, a, _) = w.stack in cc (z, a, ap s.scheduler.coroutines q)),
          ));
    apart = r.apart;
    ended =
        All-append _ s.destroy_list d
          (All-map _ _ s.destroy_list
            (λ x h.
              (let ((y, a), _, away) = h in
                ((y, a), λ q. cc (z, a, ap s.scheduler.coroutines q), away)))
            r.ended)
          ((co, e), λ q. cc (z, e, ap s.scheduler.coroutines q), λ j b f. (r.waits j b f).1);
  }
