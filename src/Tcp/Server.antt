-- ===== src/Tcp/Server.antt =====
-- flconc/net/tcp/tcp_server.h and tcp_server.cc: the clients of `TcpServer`, its timer, and `MainAcceptCorFunc`.
-- What `accept_hook` returns is a list of answers; where it ends the coroutine waits in the next
-- `accept`. A connection is in the map by its descriptor; what the I/O threads do to it meanwhile is
-- not modelled. A coroutine added to a thread's reactor is listed with its thread and descriptor.
pub mod Clients
pub mod Idle
use flconc.Base.{
  ℕ, zero, suc, ◌+◌, Bool, true, false, List, [], ◌∷◌, ◌++◌, Option, none, some, if◌then◌else◌,
  ◌==◌, ◌>>=◌, not,
}
use flconc.Base.Int.{ℤ, pos, negsuc, eq_ℤ}
use flconc.Tcp.IoThread.{IoThreadPool, get_io_thread}
use flconc.Tcp.Connection.{TcpConnection, new_connection, is_closed}

pub data ProtocalType : Type 0 where
  flconc_pb_protocal http_protocal : ProtocalType

-- An entry of `m_clients`; a pointer that was reset is `none`.
pub record Client : Type 0 where
  pub fd : ℤ
  pub connection : Option TcpConnection

-- `added` are the coroutines handed to the I/O threads.
pub record TcpServer : Type 0 where
  pub m_clients : List Client
  pub m_io_pool : IoThreadPool
  pub m_tcp_counts : ℕ
  pub m_is_stop_accept : Bool
  pub m_protocal_type : ProtocalType
  pub added : List (ℕ × ℤ)

abbrev pub server_buffer_size : ℕ
server_buffer_size = 128

-- `addClient`: a new connection under the descriptor, in the place of an old one.
unfoldable pub add_client : ℤ → List Client → List Client
add_client fd [] =
    record { fd = fd; connection = some (new_connection true server_buffer_size) } ∷ []
add_client fd (x ∷ xs) =
    let rest = add_client fd xs in
    if eq_ℤ x.fd fd
    then record x { connection = some (new_connection true server_buffer_size) } ∷ xs
    else x ∷ rest

unfoldable pub find_client : ℤ → List Client → Option TcpConnection
find_client fd [] = none
find_client fd (x ∷ xs) =
    let rest = find_client fd xs in if eq_ℤ x.fd fd then x.connection else rest

abbrev pub drop_closed : Option TcpConnection → Option TcpConnection
drop_closed none = none
drop_closed (some c) = if is_closed c.m_state then none else some c

-- `ClearClientTimerFunc`: the pointers of closed connections are reset; their entries stay.
unfoldable pub clear_client_timer_func : List Client → List Client
clear_client_timer_func [] = []
clear_client_timer_func (x ∷ xs) =
    record x { connection = drop_closed x.connection } ∷ clear_client_timer_func xs

-- A connection was accepted.
unfoldable pub accept_client : ℤ → TcpServer → ℕ × IoThreadPool → TcpServer
accept_client fd s (thread, pool) = record s {
  m_clients = add_client fd s.m_clients;
  m_io_pool = pool;
  m_tcp_counts = s.m_tcp_counts + 1;
  added = s.added ++ (thread, fd) ∷ [];
}

-- The end of a round of the loop of `MainAcceptCorFunc`, with a descriptor.
unfoldable pub accept_round : ℤ → TcpServer → Option TcpServer
accept_round fd s = get_io_thread s.m_io_pool >>= λ r. some (accept_client fd s r)

unfoldable pub accept_on : (TcpServer → Option TcpServer) → Option TcpServer → Option TcpServer
accept_on loop none = none
accept_on loop (some s) = loop s

-- With -1 the coroutine yields. `accept_hook` has deleted the event and cleared the coroutine by then, so that
-- nothing resumes it: what arrives behind a failed `accept` is not accepted.
unfoldable pub main_accept_cor_func : List ℤ → TcpServer → Option TcpServer
main_accept_cor_func [] s = some s
main_accept_cor_func (fd ∷ fds) s =
    if s.m_is_stop_accept
    then some s
    else if eq_ℤ fd (negsuc 0)
    then some s
    else accept_on (main_accept_cor_func fds) (accept_round fd s)

-- `registerService` and `registerHttpServlet`: whether a pointer that is not null is handed to the
-- dispatcher, which is also what they return.
unfoldable pub registers_service : ProtocalType → Bool → Bool
registers_service flconc_pb_protocal is_set = is_set
registers_service http_protocal is_set = false

unfoldable pub registers_http_servlet : ProtocalType → Bool → Bool
registers_http_servlet flconc_pb_protocal is_set = false
registers_http_servlet http_protocal is_set = is_set
