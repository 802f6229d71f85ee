-- ===== src/Network/TcpServer/Rounds.antt =====
-- Connections go round the loops, and none takes another one's name.
use coroutine_transaction.Base.{
  ◌++◌, append-nil, append_assoc, ℕ, zero, suc, ◌+◌, ◌%◌, ◌≤◌, ◌<◌, ◌≡◌, ◌∙◌, refl, sym, ap, inl,
  inr, none, some, List, [], ◌∷◌, arith, length, get_elem?, update_self, update-ne, ℕ-cases,
}
use native.Mathlib.Nat.{suc-mod, zero-mod, mod-lt}
use coroutine_transaction.Network.TcpServer.{
  Pool, new_pool, start_loops, start_pool, get_next_loop, get_next_loops, ServerConnection,
  TcpServer, new_tcp_server, new_server_connection, remove_connection_in_loop,
}

get_elem?-some : (xs : List ℕ) (i : ℕ) → i < length xs → (x : ℕ) × (get_elem? xs i ≡ some x)
get_elem?-some [] i h = absurd (omega arith)
get_elem?-some (x ∷ xs) zero h = (x, refl)
get_elem?-some (x ∷ xs) (suc i) h = get_elem?-some xs i (omega arith)

-- One round from the place `j`.
rounds :
    (l base : ℕ) (ls : List ℕ) (k i j : ℕ)
    → i < k
    → let n = length (l ∷ ls) in
      get_elem? (get_next_loops k (record { base_loop = base; loops = l ∷ ls; next = j % n })) i
      ≡ some (get_elem? (l ∷ ls) ((j + i) % n))
unfolding get_next_loops get_next_loop
rounds l base ls zero i j h = absurd (omega arith)
rounds l base ls (suc k) zero j h = let e : j + 0 ≡ j = omega arith in rw e refl
rounds l base ls (suc k) (suc i) j h =
    let n = length (l ∷ ls) in
    let e : j + suc i ≡ suc j + i = omega arith in
    rw (e, sym (suc-mod j n)) (rounds l base ls k i (suc j) (omega arith))

-- With loops in the pool, the connection `i` of those that follow runs on the loop `i` modulo their
-- number, which is there.
pub get_next_loops-round :
    (l base : ℕ) (ls : List ℕ) (k i : ℕ)
    → i < k
    → let n = length (l ∷ ls) in
      (loop : ℕ) × (get_elem? (l ∷ ls) (i % n) ≡ some loop)
      × (get_elem? (get_next_loops k (record { base_loop = base; loops = l ∷ ls; next = 0 })) i
          ≡ some (some loop))
get_next_loops-round l base ls k i h =
    let n = length (l ∷ ls) in
    let (loop, e) = get_elem?-some (l ∷ ls) (i % n) (mod-lt i (omega arith)) in
    let z : 0 % n ≡ 0 = zero-mod n in
    let r = rounds l base ls k i 0 h in
    let a : 0 + i ≡ i = omega arith in (loop, e, (rw (z, a, e) at r))

-- The loops that the rounds from `i` on start.
abbrev numbered : (ℕ → ℕ) → ℕ → ℕ → List ℕ
numbered start_loop i zero = []
numbered start_loop i (suc k) = start_loop i ∷ numbered start_loop (suc i) k

start_loops-numbered :
    (start_loop : ℕ → ℕ) (i k : ℕ) (loops : List ℕ)
    → start_loops start_loop i k loops ≡ loops ++ numbered start_loop i k
unfolding start_loops
start_loops-numbered start_loop i zero loops = sym (append-nil loops)
start_loops-numbered start_loop i (suc k) loops =
    start_loops-numbered start_loop (suc i) k (loops ++ (start_loop i ∷ []))
    ∙ append_assoc loops (start_loop i ∷ []) (numbered start_loop (suc i) k)

length-numbered : (start_loop : ℕ → ℕ) (i k : ℕ) → length (numbered start_loop i k) ≡ k
length-numbered start_loop i zero = refl
length-numbered start_loop i (suc k) = ap suc (length-numbered start_loop (suc i) k)

get_elem?-numbered :
    (start_loop : ℕ → ℕ) (i k j : ℕ)
    → j < k
    → get_elem? (numbered start_loop i k) j ≡ some (start_loop (i + j))
get_elem?-numbered start_loop i zero j h = absurd (omega arith)
get_elem?-numbered start_loop i (suc k) zero h = let e : i + 0 ≡ i = omega arith in rw e refl
get_elem?-numbered start_loop i (suc k) (suc j) h =
    let e : i + suc j ≡ suc i + j = omega arith in
    rw e (get_elem?-numbered start_loop (suc i) k j (omega arith))

-- A new pool that starts with `n` threads, and more than none, gives the connection `i` of those that
-- follow the loop that its thread `i % n` has started.
pub get_next_loops-started :
    (start_loop : ℕ → ℕ) (n base k i : ℕ)
    → 0 < n
    → i < k
    → get_elem? (get_next_loops k (start_pool start_loop n (new_pool base))) i
      ≡ some (some (start_loop (i % n)))
unfolding start_pool
get_next_loops-started start_loop zero base k i z h = absurd (omega arith)
get_next_loops-started start_loop (suc m) base k i z h =
    let first = start_loop 0 in
    let others = numbered start_loop 1 m in
    let len : length (first ∷ others) ≡ suc m = length-numbered start_loop 0 (suc m) in
    let (loop, e, r) = get_next_loops-round first base others k i h in
    let there = get_elem?-numbered start_loop 0 (suc m) (i % suc m) (mod-lt i (omega arith)) in
    let plus : 0 + i % suc m ≡ i % suc m = omega arith in
    let same : some loop ≡ some (start_loop (i % suc m)) =
      sym e
      ∙ ap (λ x. get_elem? (first ∷ others) (i % x)) len
      ∙ there
      ∙ ap (λ x. some (start_loop x)) plus in
    rw (start_loops-numbered start_loop 0 (suc m) []) (r ∙ ap some same)

-- What a server can do.
pub data Op : Type 0 where
  accepts : ℕ → Op
  removes : ℕ → Op

unfoldable pub run_op : Op → TcpServer → TcpServer
unfolding new_server_connection remove_connection_in_loop
run_op (accepts sockfd) s = new_server_connection sockfd s
run_op (removes id) s = remove_connection_in_loop id s

unfoldable pub run_ops : List Op → TcpServer → TcpServer
unfolding run_op
run_ops [] s = s
run_ops (op ∷ ops) s = run_ops ops (run_op op s)

abbrev Free : TcpServer → Type 0
Free s = (j : ℕ) → s.next_conn_id ≤ j → s.connections j ≡ none

run_op-Free : (op : Op) (s : TcpServer) → Free s → Free (run_op op s)
unfolding run_op new_server_connection remove_connection_in_loop
run_op-Free (accepts sockfd) s h =
    λ j l. update-ne s.connections s.next_conn_id _ j (λ e. omega arith) ∙ h j (omega arith)
run_op-Free (removes id) s h = λ j l. elim (ℕ-cases j id) [
  | inl e ↦ rw e (update_self s.connections id none)
  | inr n ↦ update-ne s.connections id none j n ∙ h j l
]

run_ops-Free : (ops : List Op) (s : TcpServer) → Free s → Free (run_ops ops s)
unfolding run_ops
run_ops-Free [] s h = h
run_ops-Free (op ∷ ops) s h = run_ops-Free ops (run_op op s) (run_op-Free op s h)

-- However many connections came and went, a new one takes a name that no other has: it stands in the map
-- with its descriptor, and every other connection stays.
pub new_server_connection-fresh :
    (pool : Pool) (ops : List Op) (sockfd : ℕ)
    → let s = run_ops ops (new_tcp_server pool) in
      let s' = new_server_connection sockfd s in
      (s.connections s.next_conn_id ≡ none)
      × ((c : ServerConnection) × (s'.connections s.next_conn_id ≡ some c) × (c.sockfd ≡ sockfd))
      × ((j : ℕ) (c : ServerConnection) → s.connections j ≡ some c → s'.connections j ≡ some c)
unfolding new_server_connection
new_server_connection-fresh pool ops sockfd =
    let s = run_ops ops (new_tcp_server pool) in
    let free = run_ops-Free ops (new_tcp_server pool) (λ j l. refl) in
    let none_yet = free s.next_conn_id (omega arith) in
    let c : ServerConnection = record {
      sockfd = sockfd;
      io_loop = (get_next_loop s.thread_pool).1;
    } in
    (
      none_yet,
      (c, update_self s.connections s.next_conn_id (some c), refl),
      λ j d e.
          update-ne s.connections s.next_conn_id (some c) j
            (λ q. cc (none_yet, e, ap s.connections q))
          ∙ e,
    )
