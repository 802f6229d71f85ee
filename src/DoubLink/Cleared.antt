-- ===== src/DoubLink/Cleared.antt =====
-- DoubLink::Clear, and that its loop ends.
use mathlib.Core.Path.{subst}
use coroutine_transaction.Base.{
  ℕ, zero, suc, ◌<◌, ◌≡◌, ◌≢◌, ◌∙◌, refl, sym, ap, inl, inr, none, some, List, [], ◌∷◌, length,
  update, update_self, update-ne, unlink, ℕ-cases, ==-self, arith,
}
use coroutine_transaction.DoubLink.{Memory, new_memory, clear, pop}
use coroutine_transaction.DoubLink.Chain.{Distinct, unlink-Out}
use coroutine_transaction.DoubLink.Represents.{
  Links, no_links, relist, remove_from, links_remove, Represents,
}
use coroutine_transaction.DoubLink.Refines.{pop-Represents}
use coroutine_transaction.DoubLink.Runs.{LinkOp, link_op, list_op, run_calls, run_calls-refines}

-- The list `l` is empty, its nodes have no owner, and all else is as before.
abbrev pub Cleared : ℕ → Links → Links → Type 0
Cleared l s s' =
    (s'.lists l ≡ [])
    × ((j : ℕ) → j ≢ l → s'.lists j ≡ s.lists j)
    × ((x : ℕ) → s.owner x ≡ some l → s'.owner x ≡ none)
    × ((x : ℕ) → s.owner x ≢ some l → s'.owner x ≡ s.owner x)

-- One node less, and the rest cleared.
Cleared-cons :
    (l x : ℕ) (xs : List ℕ) (s s' : Links)
    → s.owner x ≡ some l
    → Cleared l (relist l xs x none s) s'
    → Cleared l s s'
Cleared-cons l x xs s s' o (a, b, c, d) = (
  a,
  λ j ne. b j ne ∙ update-ne s.lists l xs j ne,
  λ y e. elim (ℕ-cases y x) [
    | inl q ↦
        let gone : update s.owner x none y ≡ none = (rw (q, ==-self x) refl) in
        d y (λ u. cc (u, gone)) ∙ gone
    | inr ne ↦ c y (update-ne s.owner x none y ne ∙ e)
  ],
  λ y n. elim (ℕ-cases y x) [
    | inl q ↦ absurd (n (ap s.owner q ∙ o))
    | inr ne ↦ let same = update-ne s.owner x none y ne in d y (λ u. n (sym same ∙ u)) ∙ same
  ],
)

clear_lem :
    (fuel l : ℕ) (s : Links) (m : Memory) (xs : List ℕ)
    → Represents s m
    → s.lists l ≡ xs
    → length xs < fuel
    → (s' : Links) × (m' : Memory) × (clear fuel l m ≡ some m') × Represents s' m' × Cleared l s s'
unfolding clear
clear_lem zero l s m xs r e h = elim h [ ]
clear_lem (suc fuel) l s m [] r e h =
    let (c, r') = pop-Represents r l [] e in
    (
      s,
      (pop l m).1,
      rw c refl,
      r',
      (e, λ j _. refl, λ x o. absurd (rw e at (r.inside l x o)), λ x _. refl),
    )
clear_lem (suc fuel) l s m (x ∷ xs) r e h =
    let (c, r') = pop-Represents r l (x ∷ xs) e in
    let o = r.owned l x (rw e (inl refl)) in
    let d : Distinct (x ∷ xs) = (rw e at (r.distinct l)) in
    let s1 = relist l xs x none s in
    let tl : unlink x (s.lists l) ≡ xs = rw (e, ==-self x) (unlink-Out x xs d.0) in
    let same : links_remove x s ≡ s1 =
      ap (λ k. remove_from k x s) o ∙ ap (λ ys. relist l ys x none s) tl in
    let (s', m', run, rep, left) =
      clear_lem fuel l s1 (pop l m).1 xs (subst (λ k. Represents k (pop l m).1) same r')
        (update_self s.lists l xs) (omega arith) in
    (s', m', rw c run, rep, Cleared-cons l x xs s s' o left)

-- Clear ends: after any calls, the loop of Clear with more rounds than the list has nodes returns, and
-- then the list is empty, its nodes have no owner, and the other lists and nodes are as before.
pub clear-ends :
    (cs : List LinkOp) (l fuel : ℕ)
    → let m = (run_calls link_op cs new_memory).1 in
      let s = (run_calls list_op cs no_links).1 in
      length (s.lists l) < fuel
      → (s' : Links) × (m' : Memory) × (clear fuel l m ≡ some m')
        × Represents s' m'
        × Cleared l s s'
clear-ends cs l fuel h =
    let (_, r) = run_calls-refines cs in
    clear_lem fuel l (run_calls list_op cs no_links).1 (run_calls link_op cs new_memory).1 _ r refl
      h
