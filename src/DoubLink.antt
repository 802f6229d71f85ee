-- ===== src/DoubLink.antt =====
-- The intrusive lists of timer/linklist.h on a heap of nodes. A DoubLink has a number, and its members
-- head_ and tail_ are nodes of their own; any other node has a number too.
pub mod Chain
pub mod Writes
pub mod Represents
pub mod Refines
pub mod Runs
pub mod Cleared
use coroutine_transaction.Base.{
  ℕ, zero, suc, ◌+◌, ◌-◌, ◌%◌, ◌^◌, Bool, true, false, not, ◌||◌, Option, none, some, ◌==◌, List,
  [], ◌∷◌, if◌then◌else◌, update,
}

-- DoubLinkNode*.
pub data Ptr : Type 0 where
  null : Ptr
  head tail node : ℕ → Ptr

abbrev pub eq_ptr : Ptr → Ptr → Bool
eq_ptr null null = true
eq_ptr (head a) (head b) = a == b
eq_ptr (tail a) (tail b) = a == b
eq_ptr (node a) (node b) = a == b
eq_ptr _ _ = false

abbrev pub is_null : Ptr → Bool
is_null p = eq_ptr p null

-- `p->field = v`, on one field of all nodes.
abbrev pub write {ℓ} : {A : Type ℓ} → (Ptr → A) → Ptr → A → Ptr → A
write f p v q = if eq_ptr q p then v else f q

-- The fields of the nodes, and count_ of the lists; an owner is a DoubLink or null.
pub record Memory : Type 0 where
  pub next : Ptr → Ptr
  pub prev : Ptr → Ptr
  pub owner : Ptr → Option ℕ
  pub count : ℕ → ℕ

abbrev pub is_some {ℓ} : {A : Type ℓ} → Option A → Bool
is_some none = false
is_some (some _) = true

abbrev pub u32_mod : ℕ
u32_mod = 2 ^ 32

-- What DoubLink() and DoubLinkNode() leave.
unfoldable pub new_memory : Memory
new_memory = record {
  next = λ p. elim p [ null ↦ null | head l ↦ tail l | tail l ↦ null | node n ↦ null ];
  prev = λ p. elim p [ null ↦ null | head l ↦ null | tail l ↦ head l | node n ↦ null ];
  owner = λ _. none;
  count = λ _. 0;
}

-- DoubLink::Size, GetFirst and Empty.
abbrev pub size : ℕ → Memory → ℕ
size l m = m.count l

abbrev pub get_first : ℕ → Memory → Ptr
get_first l m = m.next (head l)

abbrev pub empty : ℕ → Memory → Bool
empty l m = eq_ptr (m.next (head l)) (tail l)

-- The test of Push and PushFront.
abbrev pub is_linked : Ptr → Memory → Bool
is_linked p m = not (is_null (m.next p)) || not (is_null (m.prev p)) || is_some (m.owner p)

-- DoubLink::Push, with its writes in order.
unfoldable pub push : ℕ → Ptr → Memory → Memory
push l p m =
    if is_linked p m
    then m
    else let m1 = record m { next = write m.next (m.prev (tail l)) p } in
      let m2 = record m1 { prev = write m1.prev p (m1.prev (tail l)) } in
      let m3 = record m2 { prev = write m2.prev (tail l) p } in
      let m4 = record m3 { next = write m3.next p (tail l) } in
      record m4 {
        owner = write m4.owner p (some l);
        count = update m4.count l ((m4.count l + 1) % u32_mod);
      }

-- DoubLink::PushFront.
unfoldable pub push_front : ℕ → Ptr → Memory → Memory
push_front l p m =
    if is_linked p m
    then m
    else let m1 = record m { prev = write m.prev p (head l) } in
      let m2 = record m1 { next = write m1.next p (m1.next (head l)) } in
      let m3 = record m2 { prev = write m2.prev (m2.next (head l)) p } in
      let m4 = record m3 { next = write m3.next (head l) p } in
      record m4 {
        owner = write m4.owner p (some l);
        count = update m4.count l ((m4.count l + 1) % u32_mod);
      }

-- DoubLink::Remove, behind its test.
pub remove_linked : ℕ → Ptr → Memory → Memory
remove_linked l p m =
    let m1 = record m { next = write m.next (m.prev p) (m.next p) } in
    let m2 = record m1 { prev = write m1.prev (m1.next p) (m1.prev p) } in
    let m3 = record m2 { next = write m2.next p null; prev = write m2.prev p null } in
    record m3 {
      count = update m3.count l ((m3.count l + u32_mod - 1) % u32_mod);
      owner = write m3.owner p none;
    }

-- The test of Remove, on the owner of the node.
abbrev pub remove_owned : Option ℕ → Ptr → Memory → Memory
remove_owned none p m = m
remove_owned (some l) p m =
    if is_null (m.prev p) || is_null (m.next p) then m else remove_linked l p m

-- DoubLink::Remove.
unfoldable pub remove : Ptr → Memory → Memory
unfolding remove_linked
remove p m = remove_owned (m.owner p) p m

-- DoubLinkNode::~DoubLinkNode.
unfoldable pub destroy : Ptr → Memory → Memory
destroy p m = if is_some (m.owner p) then remove p m else m

-- DoubLink::Pop.
unfoldable pub pop : ℕ → Memory → Ptr × Memory
unfolding remove
pop l m =
    if eq_ptr (m.next (head l)) (tail l)
    then (null, m)
    else let p = m.next (head l) in (p, remove p m)

-- DoubLink::Clear, the destructor too; `none` means that the fuel ran out.
pub clear : ℕ → ℕ → Memory → Option Memory
unfolding pop
clear zero l m = none
clear (suc fuel) l m =
    let (p, m') = pop l m in let rest = clear fuel l m' in if is_null p then some m' else rest
