-- ===== src/Demo/Front/Replies.antt =====
-- The answers of OnMessage to the lines of a peer.
use coroutine_transaction.Base.{
  ℕ, ◌^◌, ◌<◌, ◌≤◌, ◌≡◌, ap, false, Option, some, List, [], ◌∷◌, ◌++◌, ◌==◌,
}
use coroutine_transaction.Transaction.{Instance, Transaction}
use coroutine_transaction.Server.Calls.{send_msg_event_to_tran}
use coroutine_transaction.Server.Create.{MakeEnv}
use coroutine_transaction.Demo.Text.{codes, is_digit, to_string, to_string_signed, invalid_argument}
use coroutine_transaction.Demo.Text.Numbers.{Word}
use coroutine_transaction.Demo.Gm.Lines.{call_gm-invoke, call_gm-raises}
use coroutine_transaction.Demo.Front.{Front, replies, dies, peer_of, reply_of, on_message}

module _ {U : Type 0} (tran_of : ℕ → Option (Transaction U)) where
  -- A peer that sends `invoke <id> <event>`, with the id of a transaction of the map and an event of the
  -- demo as std::to_string prints them, has the event sent to that transaction, and gets back the
  -- value of SendMsgEventToTran as `; ret=<value>` and a line feed; a peer that has no id gets one.
  pub on_message-invoke :
      (make : MakeEnv) (choice peer id v : ℕ) (inst : Instance) (f : Front U)
      → id < 2 ^ 64
      → 1000 ≤ v
      → v ≤ 1004
      → f.server.trans_map id ≡ some inst
      → let line = codes "invoke" ++ (32 ∷ (to_string id ++ (32 ∷ to_string v))) in
        let r = send_msg_event_to_tran tran_of make.env id v f.server in
        on_message tran_of make choice peer line f
        ≡ replies
            (codes "; ret=" ++ (to_string_signed r.1 ++ (10 ∷ [])))
            (record { server = r.0; peers = (peer_of choice peer f.peers).1 })
  unfolding on_message
  on_message-invoke make choice peer id v inst f h lo hi e =
      let (who, peers) = peer_of choice peer f.peers in
      ap (reply_of peers) (call_gm-invoke tran_of make who id v inst f.server h lo hi e)

  -- A peer that sends `start` and a word that begins neither with a digit nor with a sign makes
  -- OnMessage end by std::invalid_argument, with nothing sent.
  pub on_message-dies :
      (make : MakeEnv) (choice peer c : ℕ) (w : List ℕ) (f : Front U)
      → Word (c ∷ w)
      → is_digit c ≡ false
      → (c == 45) ≡ false
      → (c == 43) ≡ false
      → on_message tran_of make choice peer (codes "start" ++ (32 ∷ (c ∷ w))) f
        ≡ dies invalid_argument
            (record { server = f.server; peers = (peer_of choice peer f.peers).1 })
  unfolding on_message
  on_message-dies make choice peer c w f h d m p =
      let (who, peers) = peer_of choice peer f.peers in
      ap (reply_of peers) (call_gm-raises tran_of make who c w f.server h d m p)
