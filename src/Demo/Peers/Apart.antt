-- ===== src/Demo/Peers/Apart.antt =====
-- No two peers have one id.
use coroutine_transaction.Base.{
  ℕ, suc, ◌+◌, ◌^◌, ◌≤◌, ◌≡◌, ◌≢◌, ap, some, List, [], ◌∷◌, length, arith,
}
use coroutine_transaction.Demo.Peers.{
  PeerMgr, new_peer_mgr, value_or, add_peer, get_peer_id, remove_peer,
}
use coroutine_transaction.Demo.Peers.Kept.{Apart, less_room, add_peer-Added, remove_peer-Apart}

-- A peer connects, where the environment chooses a free id, or its connection is closed.
pub data PeerOp : Type 0 where
  adds : ℕ → ℕ → PeerOp
  removes : ℕ → PeerOp

abbrev pub peer_op : PeerOp → PeerMgr → PeerMgr
peer_op (adds choice peer) s = (add_peer choice peer s).1
peer_op (removes peer) s = remove_peer peer s

abbrev pub peer_ops : List PeerOp → PeerMgr → PeerMgr
peer_ops [] s = s
peer_ops (op ∷ ops) s = peer_ops ops (peer_op op s)

abbrev room_for : List PeerOp → ℕ → ℕ
room_for [] room = room
room_for (_ ∷ ops) room = suc (room_for ops room)

room_for_lem : (ops : List PeerOp) (room : ℕ) → room_for ops room ≡ length ops + room
room_for_lem [] room = omega arith
room_for_lem (op ∷ ops) room = omega (arith, room_for_lem ops room)

peer_ops-Apart :
    (ops : List PeerOp) (room : ℕ) (s : PeerMgr)
    → Apart (room_for ops room) s
    → Apart room (peer_ops ops s)
peer_ops-Apart [] room s a = a
peer_ops-Apart (adds choice peer ∷ ops) room s a =
    peer_ops-Apart ops room (add_peer choice peer s).1
      (add_peer-Added choice (room_for ops room) peer s a).apart
peer_ops-Apart (removes peer ∷ ops) room s a =
    peer_ops-Apart ops room (remove_peer peer s)
      (remove_peer-Apart (room_for ops room) peer s (less_room (room_for ops room) s a))

new_peer_mgr-Apart : (room : ℕ) → 100000 + room ≤ 2 ^ 31 → Apart room new_peer_mgr
unfolding new_peer_mgr
new_peer_mgr-Apart room h = record {
  start = omega arith;
  bounded = h;
  mapped = λ p v e. cc e;
  distinct = λ p q v e. cc e;
  freed = λ v i. absurd i;
  unused = λ p v e. cc e;
}

-- However many peers came and went, as long as their calls and the first id stay within an `int`:
-- every peer of the map has an id that is not 0 and that no other peer has; and a peer that is added
-- then has the id that add_peer returned, while the others keep theirs.
pub peer_ids-apart :
    (ops : List PeerOp)
    → 100001 + length ops ≤ 2 ^ 31
    → let s = peer_ops ops new_peer_mgr in
      ((p v : ℕ) → s.peer_map p ≡ some v → v ≢ 0)
      × ((p q v : ℕ) → s.peer_map p ≡ some v → s.peer_map q ≡ some v → p ≡ q)
      × ((choice peer : ℕ)
          → let r = add_peer choice peer s in
            (get_peer_id peer r.1 ≡ r.0)
            × ((p : ℕ) → p ≢ peer → get_peer_id p r.1 ≡ get_peer_id p s))
peer_ids-apart ops h =
    let s = peer_ops ops new_peer_mgr in
    let a =
      peer_ops-Apart ops 1 new_peer_mgr
        (new_peer_mgr-Apart (room_for ops 1) (omega (arith, room_for_lem ops 1))) in
    (
      λ p v e z. omega (arith, a.mapped p v e),
      a.distinct,
      λ choice peer.
          (let d = add_peer-Added choice 0 peer s a in
            (ap (value_or 0) d.got, λ p ne. ap (value_or 0) (d.others p ne))),
    )
