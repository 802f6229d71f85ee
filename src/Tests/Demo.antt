-- ===== src/Tests/Demo.antt =====
-- The demo at concrete peers and lines.
use coroutine_transaction.Base.{
  ℕ, ◌-◌, ◌^◌, ◌≡◌, ◌≢◌, refl, some, List, [], ◌∷◌, ◌++◌, pos, arith, true,
}
use coroutine_transaction.Coroutine.{init, create_work_routine}
use coroutine_transaction.Timer.History.{start as start_timers}
use coroutine_transaction.Server.Calls.{start_transaction, send_msg_event_to_tran}
use coroutine_transaction.Server.Create.{MakeEnv, new_instance}
use coroutine_transaction.Server.Steps.{begins}
use coroutine_transaction.Demo.Text.{
  codes, ok, invalid_argument, strto_unsigned, scan_number, skip_spaces, trim, trim_end,
  scan_digits, to_string, to_string_signed,
}
use coroutine_transaction.Demo.Text.Numbers.{strto_unsigned-to_string}
use coroutine_transaction.Demo.Peers.{new_peer_mgr, add_peer, get_peer_id, remove_peer}
use coroutine_transaction.Demo.Peers.Apart.{PeerOp, adds, removes, peer_ops, peer_ids-apart}
use coroutine_transaction.Demo.Gm.{returns, faults, call_gm, register_all_gm}
use coroutine_transaction.Demo.Gm.Lines.{call_gm-start, call_gm-ne-faults}
use coroutine_transaction.Demo.Front.{Front, replies, dies, peer_of, on_message}
use coroutine_transaction.Demo.Front.Replies.{on_message-invoke, on_message-dies}
use coroutine_transaction.Tests.Timer.{all_funcs}
use coroutine_transaction.Tests.Transaction.{plan}
use coroutine_transaction.Tests.Server.{
  tran_of, booted, started, first_env, waiting_inst, started_lem,
}

-- Two peers connect, the first goes, and a third takes its id.
abbrev comings : List PeerOp
comings = adds 0 11 ∷ adds 0 12 ∷ removes 11 ∷ adds 0 13 ∷ []

comings_lem :
    (get_peer_id 12 (peer_ops comings new_peer_mgr) ≡ 100001)
    × (get_peer_id 13 (peer_ops comings new_peer_mgr) ≡ 100000)
    × (get_peer_id 11 (peer_ops comings new_peer_mgr) ≡ 0)
unfolding new_peer_mgr add_peer remove_peer
comings_lem = (refl, refl, refl)

peer_ids-apart_example :
    let s = peer_ops comings new_peer_mgr in
    ((p v : ℕ) → s.peer_map p ≡ some v → v ≢ 0)
    × ((p q v : ℕ) → s.peer_map p ≡ some v → s.peer_map q ≡ some v → p ≡ q)
    × ((choice peer : ℕ)
        → let r = add_peer choice peer s in
          (get_peer_id peer r.1 ≡ r.0) × ((p : ℕ) → p ≢ peer → get_peer_id p r.1 ≡ get_peer_id p s))
peer_ids-apart_example = peer_ids-apart comings (omega arith)

strto_unsigned-to_string_example :
    strto_unsigned 32 ((32 ∷ 9 ∷ []) ++ (to_string 40961 ++ (10 ∷ []))) ≡ ok 40961
strto_unsigned-to_string_example =
    strto_unsigned-to_string 32 40961 (32 ∷ 9 ∷ []) (10 ∷ []) (refl, (refl, tt)) (refl, tt)
      (omega arith) (omega arith)

-- strtoull takes a minus sign, so that a u64 can be given as a negative number.
negative_lem : strto_unsigned 64 (codes "-1") ≡ ok (2 ^ 64 - 1)
unfolding strto_unsigned trim trim_end skip_spaces scan_number scan_digits
negative_lem = refl

abbrev make : MakeEnv
make = record { env = first_env; guid = 77 }

abbrev front : Front (List ℕ)
front = record { server = started; peers = peer_ops comings new_peer_mgr }

on_message-invoke_example :
    let r = send_msg_event_to_tran tran_of first_env 70 1001 started in
    on_message tran_of make 0 12
      (codes "invoke" ++ (32 ∷ (to_string 70 ++ (32 ∷ to_string 1001))))
      front
    ≡ replies
        (codes "; ret=" ++ (to_string_signed r.1 ++ (10 ∷ [])))
        (record { server = r.0; peers = (peer_of 0 12 front.peers).1 })
on_message-invoke_example =
    on_message-invoke tran_of make 0 12 70 1001 waiting_inst front (omega arith) (omega arith)
      (omega arith) started_lem.0

on_message-dies_example :
    on_message tran_of make 0 12 (codes "start" ++ (32 ∷ codes "demo")) front
    ≡ dies invalid_argument (record { server = started; peers = (peer_of 0 12 front.peers).1 })
on_message-dies_example =
    on_message-dies tran_of make 0 12 100 (codes "emo") front (refl, (refl, (refl, (refl, tt))))
      refl refl refl

made_lem : (create_work_routine true 7 (pos 524288) 1 77 booted.scheduler).1 ≡ pos 0
unfolding create_work_routine init
made_lem = refl

call_gm-start_example :
    call_gm (register_all_gm tran_of) make 100000 (codes "start" ++ (32 ∷ to_string 1)) booted
    ≡ returns
        (pos 0)
        (codes "start transaction success, transaction id: " ++ to_string 77)
        (start_transaction tran_of first_env (new_instance 77 1 100000 0 0) booted).0
call_gm-start_example =
    call_gm-start tran_of make 100000 1 plan booted (begins (pos 4096) (start_timers all_funcs) [])
      (omega arith) refl (λ q. cc q) (λ q. cc q) refl made_lem

call_gm-ne-faults_example :
    call_gm (register_all_gm tran_of) make 100000 (codes "invoke 70") started ≢ faults
call_gm-ne-faults_example = call_gm-ne-faults tran_of make 100000 (codes "invoke 70") started
