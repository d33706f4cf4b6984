-- ===== src/Tcp/Acceptor.antt =====
-- flconc/net/tcp/tcp_server.h and tcp_server.cc: `TcpAcceptor`, and the start of `TcpServer`. What the system
-- calls return is an argument, and the calls made are listed; an address is a parameter.
pub mod Opened
use flconc.Base.{
  ℕ, Bool, true, false, List, [], ◌∷◌, ◌++◌, Option, none, some, if◌then◌else◌, ◌>>=◌, not,
}
use flconc.Base.Int.{ℤ, pos, negsuc, eq_ℤ, ltb_ℤ}
use flconc.Tcp.Server.{TcpServer, main_accept_cor_func}

-- AF_INET, AF_UNIX and the others.
pub data Family : Type 0 where
  af_inet af_unix unknown : Family

pub data SocketCall : Type 0 where
  calls_socket : Family → SocketCall
  calls_setsockopt calls_bind : ℤ → SocketCall
  calls_listen : ℤ → ℕ → SocketCall
  calls_accept calls_close : ℤ → SocketCall

pub record TcpAcceptor (P : Type 0) : Type 0 where
  pub m_family : Family
  pub m_fd : ℤ
  pub m_peer_addr : Option P
  pub calls : List SocketCall

-- The descriptor of `socket`, and the answers of `bind` and `listen`.
pub record Answers : Type 0 where
  pub fd : ℤ
  pub bind : ℤ
  pub listen : ℤ

abbrev pub is_error : ℤ → Bool
is_error rt = not (eq_ℤ rt (pos 0))

module _ {P : Type 0} where
  unfoldable pub new_acceptor : Family → TcpAcceptor P
  new_acceptor family = record {
    m_family = family;
    m_fd = negsuc 0;
    m_peer_addr = none;
    calls = [];
  }

  abbrev pub with_calls : List SocketCall → TcpAcceptor P → TcpAcceptor P
  with_calls made a = record a { calls = a.calls ++ made }

  -- `init`; false is `Exit(0)`. An error of `setsockopt` is only logged.
  unfoldable pub init : Answers → TcpAcceptor P → Bool × TcpAcceptor P
  init answers a =
      let fd : ℤ = answers.fd in
      let opened : TcpAcceptor P =
        with_calls (calls_socket a.m_family ∷ []) (record a { m_fd = fd }) in
      let bound : TcpAcceptor P = with_calls (calls_setsockopt fd ∷ calls_bind fd ∷ []) opened in
      let listening : TcpAcceptor P = with_calls (calls_listen fd 10 ∷ []) bound in
      if ltb_ℤ fd (pos 0)
      then (false, opened)
      else if is_error answers.bind
      then (false, bound)
      else if is_error answers.listen
      then (false, listening)
      else (true, listening)

  -- The destructor, behind the unregistration.
  unfoldable pub destroy : TcpAcceptor P → TcpAcceptor P
  destroy a = if eq_ℤ a.m_fd (negsuc 0) then a else with_calls (calls_close a.m_fd ∷ []) a

  -- `toAccept` on a known family.
  unfoldable pub accept_known : ℤ × P → TcpAcceptor P → ℤ × TcpAcceptor P
  accept_known (rt, addr) a =
      let a' : TcpAcceptor P = with_calls (calls_accept a.m_fd ∷ []) a in
      if eq_ℤ rt (negsuc 0) then (negsuc 0, a') else (rt, record a' { m_peer_addr = some addr })

  -- On an unknown family `rt` is closed, which is still 0.
  unfoldable pub accept_as : Family → ℤ × P → TcpAcceptor P → ℤ × TcpAcceptor P
  accept_as af_inet answer a = accept_known answer a
  accept_as af_unix answer a = accept_known answer a
  accept_as unknown answer a = (negsuc 0, with_calls (calls_close (pos 0) ∷ []) a)

  -- `toAccept`, with the descriptor and the address that `accept_hook` gives.
  unfoldable pub to_accept : ℤ × P → TcpAcceptor P → ℤ × TcpAcceptor P
  to_accept answer a = accept_as a.m_family answer a

  -- What `toAccept` returns, call after call, up to an error.
  unfoldable pub accepts : List (ℤ × P) → TcpAcceptor P → List ℤ × TcpAcceptor P
  accepts [] a = ([], a)
  accepts (answer ∷ answers) a =
      let r : ℤ × TcpAcceptor P = to_accept answer a in
      let rest : List ℤ × TcpAcceptor P = accepts answers r.1 in
      if eq_ℤ r.0 (negsuc 0) then (r.0 ∷ [], r.1) else (r.0 ∷ rest.0, rest.1)

  -- `start` up to the loop of the main reactor: the acceptor is made, and its coroutine accepts what there
  -- is. `none` is a fault or `Exit(0)`.
  unfoldable pub start :
      Family → Answers → List (ℤ × P) → TcpServer → Option (TcpAcceptor P × TcpServer)
  start family answers arrivals s =
      let opened : Bool × TcpAcceptor P = init answers (new_acceptor family) in
      let accepted : List ℤ × TcpAcceptor P =
        if s.m_is_stop_accept then ([], opened.1) else accepts arrivals opened.1 in
      if opened.0 then (main_accept_cor_func accepted.0 s >>= λ s'. some (accepted.1, s')) else none
