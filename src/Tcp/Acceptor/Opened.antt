-- ===== src/Tcp/Acceptor/Opened.antt =====
-- flconc/net/tcp/tcp_server.cc: a server that starts listens, accepts and hands over.
use flconc.Base.{
  suc, ap, if◌then◌else◌, ◌<◌, ◌≡◌, refl, sym, ap₂, ◌∙◌, ℕ, Bool, false, List, [], ◌∷◌, ◌++◌, none,
  subst, map, length, replicate, Returns, Bool-cases, inl, inr, ◌⊎◌, append_assoc, append-nil,
}
use flconc.Base.Int.{ℤ, pos, negsuc, eq_ℤ, ltb_ℤ, eq_ℤ→eq}
use flconc.Tcp.IoThread.{new_pool, in_turn}
use flconc.Tcp.Server.{TcpServer}
use flconc.Tcp.Server.Clients.{HandedOver, accepted, main_accept_cor_func-HandedOver}
use flconc.Tcp.Acceptor.{
  Family, af_inet, af_unix, TcpAcceptor, Answers, SocketCall, calls_socket, calls_setsockopt,
  calls_bind, calls_listen, calls_accept, new_acceptor, init, accept_known, accept_as, to_accept,
  accepts, start,
}

abbrev pub IsKnown : Family → Type 0
IsKnown family = (family ≡ af_inet) ⊎ (family ≡ af_unix)

-- The calls of an acceptor that listens, and of so many calls of `toAccept`.
abbrev pub calls_of : Family → ℤ → ℕ → List SocketCall
calls_of family fd n =
    calls_socket family
    ∷ calls_setsockopt fd
    ∷ calls_bind fd
    ∷ calls_listen fd 10
    ∷ replicate n (calls_accept fd)

-- How often `accept` is called: up to the first error.
abbrev pub attempts : List ℤ → ℕ
attempts [] = 0
attempts (fd ∷ fds) = if eq_ℤ fd (negsuc 0) then 1 else suc (attempts fds)

module _ {P : Type 0} where
  -- The descriptors that `accept_hook` gives.
  abbrev pub descriptors : List (ℤ × P) → List ℤ
  descriptors arrivals = map (λ (answer : ℤ × P). answer.0) arrivals

  to_accept-known :
      (answer : ℤ × P) (a : TcpAcceptor P)
      → IsKnown a.m_family
      → to_accept answer a ≡ accept_known answer a
  unfolding to_accept accept_as
  to_accept-known answer a (inl e) = simp e
  to_accept-known answer a (inr e) = simp e

  accept_known-keeps :
      (answer : ℤ × P) (a : TcpAcceptor P)
      → ((accept_known answer a).0 ≡ answer.0)
        × ((accept_known answer a).1.m_family ≡ a.m_family)
        × ((accept_known answer a).1.m_fd ≡ a.m_fd)
        × ((accept_known answer a).1.calls ≡ a.calls ++ calls_accept a.m_fd ∷ [])
  unfolding accept_known
  accept_known-keeps (rt, addr) a = elim (Bool-cases (eq_ℤ rt (negsuc 0))) [
    | inl e ↦ simp e (sym (eq_ℤ→eq rt (negsuc 0) e), refl, refl, refl)
    | inr e ↦ simp e (refl, refl, refl, refl)
  ]

  -- What comes behind a failed `accept` makes no difference.
  accepts-known :
      (arrivals : List (ℤ × P)) (a : TcpAcceptor P)
      → IsKnown a.m_family
      → (accepted (accepts arrivals a).0 ≡ accepted (descriptors arrivals))
        × ((accepts arrivals a).1.calls
            ≡ a.calls ++ replicate (attempts (descriptors arrivals)) (calls_accept a.m_fd))
  unfolding accepts
  accepts-known [] a k = (refl, sym (append-nil a.calls))
  accepts-known (answer ∷ arrivals) a k =
      let (rt, family, fd, made) = accept_known-keeps answer a in
      let b : TcpAcceptor P = (accept_known answer a).1 in
      let (fds, more) = accepts-known arrivals b (subst IsKnown (sym family) k) in
      let n : ℕ = attempts (descriptors arrivals) in
      elim (Bool-cases (eq_ℤ answer.0 (negsuc 0))) [
        | inl e ↦ simp (to_accept-known answer a k, rt, e) (refl, made)
        | inr e ↦
            simp (to_accept-known answer a k, rt, e)
              (
                ap (λ xs. answer.0 ∷ xs) fds,
                more
                    ∙ ap₂ (λ (cs : List SocketCall) (d : ℤ). cs ++ replicate n (calls_accept d))
                        made fd
                    ∙ append_assoc a.calls (calls_accept a.m_fd ∷ [])
                        (replicate n (calls_accept a.m_fd)),
              )
      ]

  -- For a known family, a socket that can be bound and listened on, and a server that is not stopped and
  -- whose pool of `n` threads is new: the start opens, binds and listens once, accepts once for
  -- each arrival up to the first failed `accept`, and hands the descriptors accepted before it over in
  -- order, to the threads in turn; what arrives behind it is never accepted.
  pub start-HandedOver :
      (family : Family) (answers : Answers) (arrivals : List (ℤ × P)) (n : ℕ) (s : TcpServer)
      → IsKnown family
      → ltb_ℤ answers.fd (pos 0) ≡ false
      → answers.bind ≡ pos 0
      → answers.listen ≡ pos 0
      → 0 < n
      → s.m_is_stop_accept ≡ false
      → s.m_io_pool ≡ new_pool n
      → Returns (start family answers arrivals s) (λ r.
        (r.0.calls ≡ calls_of family answers.fd (attempts (descriptors arrivals)))
        × HandedOver
            (in_turn n 0 (length (accepted (descriptors arrivals))))
            (accepted (descriptors arrivals))
            s
            r.1)
  unfolding start init new_acceptor
  start-HandedOver family answers arrivals n s k f b l p o q =
      let opened : Bool × TcpAcceptor P = init answers (new_acceptor family) in
      let listening : TcpAcceptor P = record {
        m_family = family;
        m_fd = answers.fd;
        m_peer_addr = none;
        calls = calls_of family answers.fd 0;
      } in
      let fds : List ℤ = (accepts arrivals listening).0 in
      let (same, made) = accepts-known arrivals listening k in
      let (s', e, handed) = main_accept_cor_func-HandedOver n fds s p o q in
      (
        ((accepts arrivals listening).1, s'),
        simp (f, b, l, o, e),
        (made, subst (λ ds. HandedOver (in_turn n 0 (length ds)) ds s s') same handed),
      )
