-- ===== src/DoubLink/Refines.antt =====
-- DoubLink as lists of node numbers: any calls, from new lists and nodes.
use mathlib.Core.Path.{subst}
use coroutine_transaction.Base.{
  ℕ, ◌≡◌, ◌≢◌, ◌∙◌, refl, ap, inl, inr, true, false, none, some, List, [], ◌∷◌, ◌++◌, length-append,
  update, All, Elem-append, Elem-append_left, Elem-append_right, unlink, unlink-Elem, Elem-unlink,
  Option-cases, arith,
}
use coroutine_transaction.DoubLink.{
  Ptr, null, head, tail, node, is_null, write, Memory, is_linked, push, push_front, remove_linked,
  remove, destroy, pop,
}
use coroutine_transaction.DoubLink.Chain.{
  Out, Distinct-append, Distinct-unlink, length-unlink, All-of, last_All, first_All, before_All,
  after_All,
}
use coroutine_transaction.DoubLink.Writes.{
  eq_ptr-ne, eq_ptr_self, write_same, write_other, write_self, writes_other, OutOf, push-Chain,
  push_front-Chain, remove-Chain,
}
use coroutine_transaction.DoubLink.Represents.{
  Links, links_push, links_push_front, remove_from, links_remove, pop_first, Represents, Away,
  Change-Represents,
}

module _ {s : Links} {m : Memory} (r : Represents s m) where
  linked_of_owner : (n l : ℕ) → s.owner n ≡ some l → is_linked (node n) m ≡ true
  linked_of_owner n l e = let e' = r.same_owner n ∙ e in ground arith

  unlinked : (n : ℕ) → s.owner n ≡ none → is_linked (node n) m ≡ false
  unlinked n e = let (a, b) = r.free n e in simp (a, b, r.same_owner n, e)

  unowned-Out : (l n : ℕ) → s.owner n ≡ none → Out n (s.lists l)
  unowned-Out l n e = All-of _ (s.lists l) (λ y i q. cc (e, r.owned l y i, ap s.owner q))

  sentinels : (l : ℕ) → OutOf (head l) (s.lists l) × OutOf (tail l) (s.lists l)
  sentinels l = (All-of _ (s.lists l) (λ y i q. cc q), All-of _ (s.lists l) (λ y i q. cc q))

  Away-OutOf : (l : ℕ) (q : Ptr) → Away s l q → OutOf q (s.lists l)
  Away-OutOf l q (_, _, f) = All-of _ (s.lists l) f

  pub push-Represents : (l n : ℕ) → Represents (links_push l n s) (push l (node n) m)
  unfolding push
  push-Represents l n = elim (Option-cases (s.owner n)) [
    | inr (j, e) ↦ rw (e, linked_of_owner n j e) r
    | inl e ↦
        let xs = s.lists l in
        rw (e, unlinked n e)
          (Change-Represents l (xs ++ (n ∷ [])) n (some l) _ r (record {
            chain =
                push-Chain m.next m.prev n (head l) xs (tail l) (λ q. cc q) (λ q. cc q) (λ q. cc q)
                  (unowned-Out l n e) (r.distinct l) (sentinels l).0 (sentinels l).1 (r.chain l);
            distinct = Distinct-append n xs (unowned-Out l n e) (r.distinct l);
            same_next = λ q a away.
                writes_other m.next (m.prev (tail l)) (node n) (node n) (tail l) q
                  (last_All m.next m.prev (λ p. q ≢ p) (head l) xs (tail l) away.0
                    (Away-OutOf l q away) (r.chain l))
                  a;
            same_prev = λ q a away.
                writes_other m.prev (node n) (m.prev (tail l)) (tail l) (node n) q a away.1;
            kept = λ x _ i. Elem-append_left x xs (n ∷ []) i;
            back = λ x ne i. elim (Elem-append x xs (n ∷ []) i) [
              | inl j ↦ j
              | inr (inl q) ↦ absurd (ne q)
              | inr (inr q) ↦ absurd q
            ];
            was = λ j q. cc (e, q);
            now = inl (refl, Elem-append_right n xs (n ∷ []) (inl refl));
            owner = refl;
            count =
                ap (update m.count l) (omega (arith, r.counted l, length-append {0} xs (n ∷ [])));
          }))
  ]

  pub push_front-Represents :
      (l n : ℕ) → Represents (links_push_front l n s) (push_front l (node n) m)
  unfolding push_front
  push_front-Represents l n = elim (Option-cases (s.owner n)) [
    | inr (j, e) ↦ rw (e, linked_of_owner n j e) r
    | inl e ↦
        let xs = s.lists l in
        let m2 = write m.next (node n) (m.next (head l)) in
        let at : m2 (head l) ≡ m.next (head l) =
          write_other m.next (node n) (m.next (head l)) (head l) (λ q. cc q) in
        rw (e, unlinked n e)
          (Change-Represents l (n ∷ xs) n (some l) _ r (record {
            chain =
                push_front-Chain m.next m.prev n (m2 (head l)) (head l) xs (tail l) at (λ q. cc q)
                  (λ q. cc q) (λ q. cc q) (unowned-Out l n e) (r.distinct l) (sentinels l).0
                  (sentinels l).1 (r.chain l);
            distinct = (unowned-Out l n e, r.distinct l);
            same_next = λ q a away.
                writes_other m.next (node n) (m.next (head l)) (head l) (node n) q a away.0;
            same_prev = λ q a away.
                writes_other m.prev (node n) (head l) (m2 (head l)) (node n) q a (λ u.
                  first_All m.next m.prev (λ p. q ≢ p) (head l) xs (tail l) away.1
                    (Away-OutOf l q away) (r.chain l) (u ∙ at));
            kept = λ x _ i. inr i;
            back = λ x ne i. elim i [ inl q ↦ absurd (ne q) | inr j ↦ j ];
            was = λ j q. cc (e, q);
            now = inl (refl, inl refl);
            owner = refl;
            count = ap (update m.count l) (omega (arith, r.counted l));
          }))
  ]

  pub remove-Represents : (n : ℕ) → Represents (links_remove n s) (remove (node n) m)
  unfolding remove remove_linked
  remove-Represents n = elim (Option-cases (s.owner n)) [
    | inl e ↦ rw (r.same_owner n, e) r
    | inr (l, e) ↦
        let xs = s.lists l in
        let i = r.inside l n e in
        let before = m.prev (node n) in
        let after = write m.next before (m.next (node n)) (node n) in
        let at : after ≡ m.next (node n) = write_self m.next before (node n) in
        let no_null : All (λ x. node x ≢ null) xs = All-of _ xs (λ y j q. cc q) in
        let p : is_null before ≡ false = eq_ptr-ne before null (
          before_All m.next m.prev (λ q. q ≢ null) n (head l) xs (tail l) i (λ q. cc q) no_null
            (r.chain l)) in
        let f : is_null (m.next (node n)) ≡ false = eq_ptr-ne (m.next (node n)) null (
          after_All m.next m.prev (λ q. q ≢ null) n (head l) xs (tail l) i (λ q. cc q) no_null
            (r.chain l)) in
        rw (r.same_owner n, e, p, f)
          (Change-Represents l (unlink n xs) n none _ r (record {
            chain =
                remove-Chain m.next m.prev n after at (head l) xs (tail l) (λ q. cc q) (λ q. cc q)
                  (λ q. cc q) i (r.distinct l) (sentinels l).0 (sentinels l).1 (r.chain l);
            distinct = Distinct-unlink n xs (r.distinct l);
            same_next = λ q a away.
                writes_other m.next before (m.next (node n)) (node n) null q
                  (before_All m.next m.prev (λ k. q ≢ k) n (head l) xs (tail l) i away.0
                    (Away-OutOf l q away) (r.chain l))
                  a;
            same_prev = λ q a away.
                writes_other m.prev after before (node n) null q
                  (λ u.
                    after_All m.next m.prev (λ k. q ≢ k) n (head l) xs (tail l) i away.1
                      (Away-OutOf l q away) (r.chain l) (u ∙ at))
                  a;
            kept = λ x ne j. Elem-unlink n x xs j ne;
            back = λ x _ j. (unlink-Elem n x xs j).0;
            was = λ j q. cc (e, q);
            now = inr (
              refl,
              λ j. (unlink-Elem n n xs j).1 refl,
              write_same (write m.next before (m.next (node n))) (node n) null,
              write_same (write m.prev after before) (node n) null,
            );
            owner = refl;
            count =
                ap (update m.count l)
                  (omega (arith, r.counted l, length-unlink n xs (r.distinct l) i));
          }))
  ]

  pub pop-Represents :
      (l : ℕ) (xs : List ℕ)
      → s.lists l ≡ xs
      → ((pop l m).0 ≡ (pop_first xs s).0) × Represents (pop_first xs s).1 (pop l m).1
  unfolding pop
  pop-Represents l [] e =
      let c : m.next (head l) ≡ tail l = (rw e at (r.chain l)).0 in
      rw (c, eq_ptr_self (tail l)) (refl, r)
  pop-Represents l (x ∷ xs) e =
      let c : m.next (head l) ≡ node x = (rw e at (r.chain l)).0 in rw c (refl, remove-Represents x)

  pub destroy-Represents : (n : ℕ) → Represents (links_remove n s) (destroy (node n) m)
  unfolding destroy
  destroy-Represents n = elim (Option-cases (s.owner n)) [
    | inl e ↦ rw (r.same_owner n, e) r
    | inr (l, e) ↦
        rw (r.same_owner n, e)
          (subst (λ o. Represents (remove_from o n s) (remove (node n) m)) e (remove-Represents n))
  ]
