-- ===== src/Demo/Peers.antt =====
-- The ids of the connected peers: PeerMgr of demo/peer_mgr.cpp. A peer is its text `ip:port`, here a
-- number for each text. The order of the unordered set of the free ids is a choice of the environment.
mod Kept
pub mod Apart
use coroutine_transaction.Base.{
  ℕ, zero, suc, ◌+◌, ◌-◌, ◌%◌, ◌^◌, Bool, true, false, ◌||◌, Option, none, some, List, [], ◌∷◌, ltb,
  ◌==◌, if◌then◌else◌, update, unlink, get_elem?,
}

-- A u64 that is kept in the `int` of peer_map_, as it is read back.
abbrev pub as_int : ℕ → ℕ
as_int v = let w = v % 2 ^ 32 in if ltb w (2 ^ 31) then w else w + (2 ^ 64 - 2 ^ 32)

pub record PeerMgr : Type 0 where
  pub peer_map : ℕ → Option ℕ
  pub free_peer_id : List ℕ
  pub next_user_id : ℕ

unfoldable pub new_peer_mgr : PeerMgr
new_peer_mgr = record { peer_map = λ _. none; free_peer_id = []; next_user_id = 100000 }

abbrev pub has : ℕ → List ℕ → Bool
has a [] = false
has a (x ∷ xs) = x == a || has a xs

abbrev pub value_or : ℕ → Option ℕ → ℕ
value_or x none = x
value_or x (some y) = y

-- The element of the set that begin() gives.
abbrev pub begin_of : ℕ → ℕ → List ℕ → ℕ
begin_of choice x xs = value_or x (get_elem? (x ∷ xs) choice)

-- PeerMgr::get_next_free_peer_id, on the set.
abbrev pub next_free : ℕ → List ℕ → PeerMgr → ℕ × PeerMgr
next_free choice [] s = (s.next_user_id, record s { next_user_id = (s.next_user_id + 1) % 2 ^ 64 })
next_free choice (x ∷ xs) s =
    let id = begin_of choice x xs in (id, record s { free_peer_id = unlink id (x ∷ xs) })

pub get_next_free_peer_id : ℕ → PeerMgr → ℕ × PeerMgr
get_next_free_peer_id choice s = next_free choice s.free_peer_id s

-- PeerMgr::add_peer, on what the map has.
abbrev pub add_found : ℕ → ℕ → Option ℕ → PeerMgr → ℕ × PeerMgr
add_found choice peer (some id) s = (id, s)
add_found choice peer none s =
    let (id, s') = get_next_free_peer_id choice s in
    (id, record s' { peer_map = update s'.peer_map peer (some (as_int id)) })

unfoldable pub add_peer : ℕ → ℕ → PeerMgr → ℕ × PeerMgr
unfolding get_next_free_peer_id
add_peer choice peer s = add_found choice peer (s.peer_map peer) s

-- PeerMgr::get_peer_id.
abbrev pub get_peer_id : ℕ → PeerMgr → ℕ
get_peer_id peer s = value_or 0 (s.peer_map peer)

-- PeerMgr::remove_peer, on what the map has.
abbrev pub remove_found : ℕ → Option ℕ → PeerMgr → PeerMgr
remove_found peer none s = s
remove_found peer (some id) s = record s {
  peer_map = update s.peer_map peer none;
  free_peer_id = if has id s.free_peer_id then s.free_peer_id else id ∷ s.free_peer_id;
}

unfoldable pub remove_peer : ℕ → PeerMgr → PeerMgr
remove_peer peer s = remove_found peer (s.peer_map peer) s
