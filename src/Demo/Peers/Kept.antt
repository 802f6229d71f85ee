-- ===== src/Demo/Peers/Kept.antt =====
-- What keeps the ids of the peers apart, call by call.
use mathlib.Core.Path.{subst}
use coroutine_transaction.Base.{
  ℕ, zero, suc, ◌+◌, ◌%◌, ◌^◌, ◌≤◌, ◌<◌, ◌≡◌, ◌≢◌, ◌∙◌, refl, sym, ap, inl, inr, Option, none, some,
  List, [], ◌∷◌, update, update_self, update-ne, Elem, unlink, unlink-Elem, get_elem?, ℕ-cases,
  Bool-cases, Option-cases, arith, if◌then◌else◌, ◌⊎◌,
}
use coroutine_transaction.Demo.Peers.{
  PeerMgr, as_int, has, value_or, begin_of, next_free, get_next_free_peer_id, add_peer, remove_peer,
}

-- `room` more ids can be given out before they leave the range of an `int`.
pub record Apart (room : ℕ) (s : PeerMgr) : Type 0 where
  pub start : 100000 ≤ s.next_user_id
  pub bounded : s.next_user_id + room ≤ 2 ^ 31
  pub mapped : (p v : ℕ) → s.peer_map p ≡ some v → (100000 ≤ v) × (v < s.next_user_id)
  pub distinct : (p q v : ℕ) → s.peer_map p ≡ some v → s.peer_map q ≡ some v → p ≡ q
  pub freed : (v : ℕ) → Elem v s.free_peer_id → (100000 ≤ v) × (v < s.next_user_id)
  pub unused : (p v : ℕ) → s.peer_map p ≡ some v → Elem v s.free_peer_id → ⊥

get_elem?-Elem : (xs : List ℕ) (i y : ℕ) → get_elem? xs i ≡ some y → Elem y xs
get_elem?-Elem [] i y e = cc e
get_elem?-Elem (x ∷ xs) zero y e = inl (cc e)
get_elem?-Elem (x ∷ xs) (suc i) y e = inr (get_elem?-Elem xs i y e)

begin_of-Elem : (choice x : ℕ) (xs : List ℕ) → Elem (begin_of choice x xs) (x ∷ xs)
begin_of-Elem choice x xs = elim (Option-cases (get_elem? (x ∷ xs) choice)) [
  | inl e ↦ inl (ap (value_or x) e)
  | inr (y, e) ↦
      subst (λ k. Elem k (x ∷ xs)) (sym (ap (value_or x) e)) (get_elem?-Elem (x ∷ xs) choice y e)
]

-- An id that is given out is in the range, and is neither free nor some peer's.
record Given (room : ℕ) (s : PeerMgr) (r : ℕ × PeerMgr) : Type 0 where
  apart : Apart room r.1
  same : r.1.peer_map ≡ s.peer_map
  range : (100000 ≤ r.0) × (r.0 < r.1.next_user_id)
  mine : (p : ℕ) → s.peer_map p ≡ some r.0 → ⊥
  taken : Elem r.0 r.1.free_peer_id → ⊥

next_free-Given :
    (choice room : ℕ) (free : List ℕ) (s : PeerMgr)
    → s.free_peer_id ≡ free
    → Apart (suc room) s
    → Given room s (next_free choice free s)
next_free-Given choice room [] s e a =
    let next : (s.next_user_id + 1) % 2 ^ 64 ≡ s.next_user_id + 1 = omega (arith, a.bounded) in
    record {
      apart = record {
        start = omega (arith, a.start, next);
        bounded = omega (arith, a.bounded, next);
        mapped = λ p v f. omega (arith, a.mapped p v f, next);
        distinct = a.distinct;
        freed = λ v i. omega (arith, a.freed v i, next);
        unused = a.unused;
      };
      same = refl;
      range = omega (arith, a.start, next);
      mine = λ p f. omega (arith, a.mapped p s.next_user_id f);
      taken = λ i. omega (arith, a.freed s.next_user_id i);
    }
next_free-Given choice room (x ∷ xs) s e a =
    let id = begin_of choice x xs in
    let i : Elem id s.free_peer_id = rw e (begin_of-Elem choice x xs) in
    let back : (v : ℕ) → Elem v (unlink id (x ∷ xs)) → Elem v s.free_peer_id =
      λ v j. rw e (unlink-Elem id v (x ∷ xs) j).0 in
    record {
      apart = record {
        start = a.start;
        bounded = omega (arith, a.bounded);
        mapped = a.mapped;
        distinct = a.distinct;
        freed = λ v j. a.freed v (back v j);
        unused = λ p v f j. a.unused p v f (back v j);
      };
      same = refl;
      range = a.freed id i;
      mine = λ p f. a.unused p id f i;
      taken = λ j. (unlink-Elem id id (x ∷ xs) j).1 refl;
    }

as_int-small : (v : ℕ) → v < 2 ^ 31 → as_int v ≡ v
as_int-small v h = ground arith

-- What add_peer does.
pub record Added (room peer : ℕ) (s : PeerMgr) (r : ℕ × PeerMgr) : Type 0 where
  pub apart : Apart room r.1
  pub got : r.1.peer_map peer ≡ some r.0
  pub others : (p : ℕ) → p ≢ peer → r.1.peer_map p ≡ s.peer_map p

pub less_room : (room : ℕ) (s : PeerMgr) → Apart (suc room) s → Apart room s
less_room room s a = record {
  start = a.start;
  bounded = omega (arith, a.bounded);
  mapped = a.mapped;
  distinct = a.distinct;
  freed = a.freed;
  unused = a.unused;
}

Given-Added :
    (room peer : ℕ) (s : PeerMgr) (r : ℕ × PeerMgr)
    → Given room s r
    → let m = update r.1.peer_map peer (some (as_int r.0)) in
      Added room peer s (r.0, record (r.1) { peer_map = m })
Given-Added room peer s (id, t) g =
    let n : as_int id ≡ id = as_int-small id (omega (arith, g.range, g.apart.bounded)) in
    let m = update t.peer_map peer (some (as_int id)) in
    let here : m peer ≡ some id = update_self t.peer_map peer (some (as_int id)) ∙ ap some n in
    let there = λ (p : ℕ) (ne : p ≢ peer). update-ne t.peer_map peer (some (as_int id)) p ne in
    let old : (p v : ℕ)
        → m p ≡ some v
        → ((p ≡ peer) × (v ≡ id)) ⊎ ((p ≢ peer) × (t.peer_map p ≡ some v)) =
      λ p v f. elim (ℕ-cases p peer) [
        | inl q ↦ inl (q, cc (f, here, ap m q))
        | inr ne ↦ inr (ne, sym (there p ne) ∙ f)
      ] in
    let other : (p : ℕ) → t.peer_map p ≡ some id → ⊥ =
      λ p f. g.mine p (ap (λ (h : ℕ → Option ℕ). h p) (sym g.same) ∙ f) in
    record {
      apart = record {
        start = g.apart.start;
        bounded = g.apart.bounded;
        mapped = λ p v f. elim (old p v f) [
          | inl (_, q) ↦ rw q g.range
          | inr (_, f') ↦ g.apart.mapped p v f'
        ];
        distinct = λ p q v f h. elim (old p v f) [
          | inl (a, b) ↦ elim (old q v h) [
            | inl (c, _) ↦ a ∙ sym c
            | inr (_, h') ↦ absurd (other q (h' ∙ ap some b))
          ]
          | inr (_, f') ↦ elim (old q v h) [
            | inl (_, b) ↦ absurd (other p (f' ∙ ap some b))
            | inr (_, h') ↦ g.apart.distinct p q v f' h'
          ]
        ];
        freed = g.apart.freed;
        unused = λ p v f i. elim (old p v f) [
          | inl (_, q) ↦ g.taken (subst (λ k. Elem k t.free_peer_id) q i)
          | inr (_, f') ↦ g.apart.unused p v f' i
        ];
      };
      got = here;
      others = λ p ne. there p ne ∙ ap (λ (h : ℕ → Option ℕ). h p) g.same;
    }

pub add_peer-Added :
    (choice room peer : ℕ) (s : PeerMgr)
    → Apart (suc room) s
    → Added room peer s (add_peer choice peer s)
unfolding add_peer get_next_free_peer_id
add_peer-Added choice room peer s a = elim (Option-cases (s.peer_map peer)) [
  | inr (id, e) ↦ rw e (record { apart = less_room room s a; got = e; others = λ p _. refl })
  | inl e ↦ rw e (
      Given-Added room peer s (next_free choice s.free_peer_id s)
        (next_free-Given choice room s.free_peer_id s refl a))
]

has-Elem : (v w : ℕ) (xs : List ℕ) → Elem w (if has v xs then xs else v ∷ xs) → (w ≡ v) ⊎ Elem w xs
has-Elem v w xs h = elim (Bool-cases (has v xs)) [
  | inl b ↦ inr (rw b at h)
  | inr b ↦ (let h' : Elem w (v ∷ xs) = (rw b at h) in h')
]

pub remove_peer-Apart :
    (room peer : ℕ) (s : PeerMgr) → Apart room s → Apart room (remove_peer peer s)
unfolding remove_peer
remove_peer-Apart room peer s a = elim (Option-cases (s.peer_map peer)) [
  | inl e ↦ rw e a
  | inr (id, e) ↦
      let m = update s.peer_map peer none in
      let old : (p v : ℕ) → m p ≡ some v → (p ≢ peer) × (s.peer_map p ≡ some v) = λ p v f.
        elim (ℕ-cases p peer) [
          | inl q ↦ cc (f, ap m q, update_self s.peer_map peer none)
          | inr ne ↦ (ne, sym (update-ne s.peer_map peer none p ne) ∙ f)
        ] in
      rw e (record {
        start = a.start;
        bounded = a.bounded;
        mapped = λ p v f. a.mapped p v (old p v f).1;
        distinct = λ p q v f g. a.distinct p q v (old p v f).1 (old q v g).1;
        freed = λ v i. elim (has-Elem id v s.free_peer_id i) [
          | inl q ↦ rw q (a.mapped peer id e)
          | inr j ↦ a.freed v j
        ];
        unused = λ p v f i. elim (has-Elem id v s.free_peer_id i) [
          | inl q ↦ (old p v f).0 (a.distinct p peer id ((old p v f).1 ∙ ap some q) e)
          | inr j ↦ a.unused p v (old p v f).1 j
        ];
      })
]
