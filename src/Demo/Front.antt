-- ===== src/Demo/Front.antt =====
-- The callbacks of the connections of the demo: DemoTransactionServer::OnConnection and OnMessage of
-- demo/trans_server.cpp. What the peer sent is an argument, and an exception leaves the callback.
pub mod Replies
use coroutine_transaction.Base.{
  ℕ, Bool, true, false, Option, List, [], ◌∷◌, ◌++◌, ◌==◌, if◌then◌else◌,
}
use coroutine_transaction.Transaction.{Transaction}
use coroutine_transaction.Server.{Server}
use coroutine_transaction.Server.Create.{MakeEnv}
use coroutine_transaction.Demo.Text.{codes, StrtoError, to_string_signed}
use coroutine_transaction.Demo.Peers.{PeerMgr, add_peer, get_peer_id, remove_peer}
use coroutine_transaction.Demo.Gm.{
  Outcome, returns, raises, faults, GmMap, call_gm, register_all_gm,
}

-- What the demo keeps.
pub record Front (U : Type 0) : Type 0 where
  pub server : Server U
  pub peers : PeerMgr

-- What OnMessage sends back.
pub data Reply (U : Type 0) : Type 0 where
  replies : List ℕ → Front U → Reply U
  dies : StrtoError → Front U → Reply U
  reads_wild : Reply U

-- The peer's id, which OnMessage makes if there is none.
abbrev pub peer_of : ℕ → ℕ → PeerMgr → ℕ × PeerMgr
peer_of choice peer peers =
    let id = get_peer_id peer peers in if id == 0 then add_peer choice peer peers else (id, peers)

module _ {U : Type 0} where
  -- DemoTransactionServer::OnConnection; the last result is whether it calls shutdown.
  pub on_connection : Bool → ℕ → ℕ → Front U → Front U × Bool
  on_connection connected choice peer f =
      if connected
      then (record f { peers = (add_peer choice peer f.peers).1 }, false)
      else (record f { peers = remove_peer peer f.peers }, true)

  -- The answer on what CallGM gives.
  abbrev pub reply_of : PeerMgr → Outcome U → Reply U
  reply_of peers (returns ret out s) =
      replies (out ++ (codes "; ret=" ++ (to_string_signed ret ++ (10 ∷ []))))
        (record { server = s; peers = peers })
  reply_of peers (raises e s) = dies e (record { server = s; peers = peers })
  reply_of peers faults = reads_wild

module _ {U : Type 0} (tran_of : ℕ → Option (Transaction U)) where
  -- DemoTransactionServer::OnMessage.
  pub on_message : MakeEnv → ℕ → ℕ → List ℕ → Front U → Reply U
  on_message make choice peer text f =
      let (id, peers) = peer_of choice peer f.peers in
      reply_of peers (call_gm (register_all_gm tran_of) make id text f.server)
