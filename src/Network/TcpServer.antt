-- ===== src/Network/TcpServer.antt =====
-- The connections of a server and the loops that they run on: network/TcpServer.cpp and
-- EventLoopThreadPool.cpp. A loop is a number, and a connection stands in the map under the number at
-- the end of its name, which is an int that stays below 2 ^ 31.
pub mod Rounds
use coroutine_transaction.Base.{
  ℕ, zero, suc, ◌%◌, Option, none, some, List, [], ◌∷◌, ◌++◌, length, get_elem?, update,
}

-- EventLoopThreadPool.
pub record Pool : Type 0 where
  pub base_loop : ℕ
  pub loops : List ℕ
  pub next : ℕ

-- EventLoopThreadPool::EventLoopThreadPool.
abbrev pub new_pool : ℕ → Pool
new_pool base = record { base_loop = base; loops = []; next = 0 }

-- The loop of EventLoopThreadPool::start from its round `i`; `start_loop` is the loop that the thread
-- of a round starts.
pub start_loops : (ℕ → ℕ) → ℕ → ℕ → List ℕ → List ℕ
start_loops start_loop i zero loops = loops
start_loops start_loop i (suc k) loops =
    start_loops start_loop (suc i) k (loops ++ (start_loop i ∷ []))

-- EventLoopThreadPool::start with that number of threads.
pub start_pool : (ℕ → ℕ) → ℕ → Pool → Pool
unfolding start_loops
start_pool start_loop num_threads p = record p {
  loops = start_loops start_loop 0 num_threads p.loops;
}

-- EventLoopThreadPool::getNextLoop; none stands for a read behind the end of m_loops.
abbrev pub next_of : List ℕ → Pool → Pool × Option ℕ
next_of [] p = (p, some p.base_loop)
next_of (l ∷ ls) p = (record p { next = suc p.next % length p.loops }, get_elem? p.loops p.next)

pub get_next_loop : Pool → Pool × Option ℕ
get_next_loop p = next_of p.loops p

-- The loops of the next connections.
pub get_next_loops : ℕ → Pool → List (Option ℕ)
unfolding get_next_loop
get_next_loops zero p = []
get_next_loops (suc n) p = let (p', loop) = get_next_loop p in loop ∷ get_next_loops n p'

-- A connection with its descriptor and its loop.
pub record ServerConnection : Type 0 where
  pub sockfd : ℕ
  pub io_loop : Option ℕ

pub record TcpServer : Type 0 where
  pub thread_pool : Pool
  pub next_conn_id : ℕ
  pub connections : ℕ → Option ServerConnection

-- TcpServer::TcpServer.
abbrev pub new_tcp_server : Pool → TcpServer
new_tcp_server pool = record { thread_pool = pool; next_conn_id = 1; connections = λ _. none }

-- TcpServer::newConnection.
pub new_server_connection : ℕ → TcpServer → TcpServer
unfolding get_next_loop
new_server_connection sockfd s =
    let (pool, loop) = get_next_loop s.thread_pool in
    record {
      thread_pool = pool;
      next_conn_id = suc s.next_conn_id;
      connections =
          update s.connections s.next_conn_id (some (record { sockfd = sockfd; io_loop = loop }));
    }

-- TcpServer::removeConnectionInLoop, on the number in the connection's name.
pub remove_connection_in_loop : ℕ → TcpServer → TcpServer
remove_connection_in_loop id s = record s { connections = update s.connections id none }
