-- ===== src/DoubLink/Runs.antt =====
-- Any calls of DoubLink, from new lists and nodes.
use coroutine_transaction.Base.{ℕ, ◌≡◌, refl, ap, List, [], ◌∷◌, ◌++◌}
use coroutine_transaction.DoubLink.{
  Ptr, node, Memory, new_memory, push, push_front, remove, destroy, pop,
}
use coroutine_transaction.DoubLink.Represents.{
  Links, no_links, Represents, links_push, links_push_front, links_remove, links_pop,
}
use coroutine_transaction.DoubLink.Refines.{
  push-Represents, push_front-Represents, remove-Represents, destroy-Represents, pop-Represents,
}

-- The calls, on a list or a node.
pub data LinkOp : Type 0 where
  pushes pushes_front : ℕ → ℕ → LinkOp
  removes destroys pops : ℕ → LinkOp

-- A call, and what it returns if it is Pop.
abbrev pub link_op : LinkOp → Memory → List Ptr × Memory
link_op (pushes l n) m = ([], push l (node n) m)
link_op (pushes_front l n) m = ([], push_front l (node n) m)
link_op (removes n) m = ([], remove (node n) m)
link_op (destroys n) m = ([], destroy (node n) m)
link_op (pops l) m = ((pop l m).0 ∷ [], (pop l m).1)

abbrev pub list_op : LinkOp → Links → List Ptr × Links
list_op (pushes l n) s = ([], links_push l n s)
list_op (pushes_front l n) s = ([], links_push_front l n s)
list_op (removes n) s = ([], links_remove n s)
list_op (destroys n) s = ([], links_remove n s)
list_op (pops l) s = ((links_pop l s).0 ∷ [], (links_pop l s).1)

module _ {S : Type 0} (op : LinkOp → S → List Ptr × S) where
  abbrev pub run_calls : List LinkOp → S → List Ptr × S
  run_calls [] s = ([], s)
  run_calls (c ∷ cs) s =
      let (out, s') = op c s in let (outs, s'') = run_calls cs s' in (out ++ outs, s'')

link_op-Represents :
    (c : LinkOp) (s : Links) (m : Memory)
    → Represents s m
    → ((link_op c m).0 ≡ (list_op c s).0) × Represents (list_op c s).1 (link_op c m).1
link_op-Represents (pushes l n) s m r = (refl, push-Represents r l n)
link_op-Represents (pushes_front l n) s m r = (refl, push_front-Represents r l n)
link_op-Represents (removes n) s m r = (refl, remove-Represents r n)
link_op-Represents (destroys n) s m r = (refl, destroy-Represents r n)
link_op-Represents (pops l) s m r =
    let (e, r') = pop-Represents r l (s.lists l) refl in (ap (λ p. p ∷ []) e, r')

pub run_calls-Represents :
    (cs : List LinkOp) (s : Links) (m : Memory)
    → Represents s m
    → ((run_calls link_op cs m).0 ≡ (run_calls list_op cs s).0)
      × Represents (run_calls list_op cs s).1 (run_calls link_op cs m).1
run_calls-Represents [] s m r = (refl, r)
run_calls-Represents (c ∷ cs) s m r =
    let (e, r') = link_op-Represents c s m r in
    let (es, r'') = run_calls-Represents cs (list_op c s).1 (link_op c m).1 r' in (cc (e, es), r'')

pub new_memory-Represents : Represents no_links new_memory
unfolding new_memory
new_memory-Represents = record {
  chain = λ l. (refl, refl);
  distinct = λ l. tt;
  owned = λ l x i. absurd i;
  inside = λ l x e. cc e;
  same_owner = λ x. refl;
  free = λ x _. (refl, refl);
  counted = λ l. refl;
}

-- Whatever is pushed at the end or at the front, popped, removed and destroyed, on any lists and in any
-- order: Pop hands out what lists of node numbers hand out, and in the end each DoubLink leads through
-- the nodes of its list forwards and backwards, counts them modulo 2 ^ 32, and owns exactly these; a
-- node of no list has no owner and no neighbours. A node that stands in a list is not pushed again.
pub run_calls-refines :
    (cs : List LinkOp)
    → let concrete = run_calls link_op cs new_memory in
      let abstract = run_calls list_op cs no_links in
      (concrete.0 ≡ abstract.0) × Represents abstract.1 concrete.1
run_calls-refines cs = run_calls-Represents cs no_links new_memory new_memory-Represents
