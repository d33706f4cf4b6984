-- ===== src/Tcp/Server/Clients.antt =====
-- flconc/net/tcp/tcp_server.cc: the map of the clients, and the connections that are accepted.
use mathlib.Core.Option.{some-injective}
use flconc.Base.{
  ℕ, ◌+◌, ◌≡◌, ◌<◌, refl, sym, ap, ◌∙◌, true, false, List, [], ◌∷◌, ◌++◌, some, if◌then◌else◌,
  Bool-cases, inl, inr, subst, Returns, length, append_assoc, append-nil, arith, >>=-eq-some,
}
use flconc.Base.Int.{ℤ, negsuc, eq_ℤ, eq_ℤ→eq, eq_ℤ_refl}
use flconc.Tcp.IoThread.{IoThreadPool, new_pool, get_io_thread, deal, in_turn, deal-new_pool}
use flconc.Tcp.Connection.{new_connection}
use flconc.Tcp.Server.{
  Client, TcpServer, server_buffer_size, add_client, find_client, accept_client, accept_round,
  accept_on, main_accept_cor_func,
}

-- After `addClient` the descriptor has a new connection, whatever it had before, and every other
-- descriptor has what it had.
pub find_client-add_client :
    (fd other : ℤ) (xs : List Client)
    → find_client other (add_client fd xs) ≡ (
        if eq_ℤ fd other
        then some (new_connection true server_buffer_size)
        else find_client other xs)
unfolding find_client add_client
find_client-add_client fd other [] = refl
find_client-add_client fd other (x ∷ xs) = elim (Bool-cases (eq_ℤ x.fd fd)) [
  | inl e ↦ elim (Bool-cases (eq_ℤ fd other)) [
    | inl f ↦
        let g : eq_ℤ x.fd other ≡ true =
          subst (λ t. eq_ℤ t other ≡ true) (sym (eq_ℤ→eq x.fd fd e)) f in
        simp (e, f, g)
    | inr f ↦
        let g : eq_ℤ x.fd other ≡ false =
          subst (λ t. eq_ℤ t other ≡ false) (sym (eq_ℤ→eq x.fd fd e)) f in
        simp (e, f, g)
  ]
  | inr e ↦ elim (Bool-cases (eq_ℤ x.fd other)) [
    | inl g ↦ let f : eq_ℤ fd other ≡ false = other_fd x.fd fd other g e in simp (e, g, f)
    | inr g ↦ simp (e, g, find_client-add_client fd other xs)
  ]
]
  where
    other_fd : (a b c : ℤ) → eq_ℤ a c ≡ true → eq_ℤ a b ≡ false → eq_ℤ b c ≡ false
    other_fd a b c p q = elim (Bool-cases (eq_ℤ b c)) [
      | inr r ↦ r
      | inl r ↦ absurd (
          cc (
            sym q
            ∙ subst (λ t. eq_ℤ a t ≡ true) (eq_ℤ→eq a c p ∙ sym (eq_ℤ→eq b c r)) (eq_ℤ_refl a)))
    ]

-- The answers of `accept` that are descriptors.
abbrev pub accepted : List ℤ → List ℤ
accepted [] = []
accepted (fd ∷ fds) = if eq_ℤ fd (negsuc 0) then [] else fd ∷ accepted fds

-- Each descriptor with its thread.
abbrev pub paired : List ℕ → List ℤ → List (ℕ × ℤ)
paired (t ∷ ts) (fd ∷ fds) = (t, fd) ∷ paired ts fds
paired _ _ = []

-- No thread is left over.
paired-nil : (ts : List ℕ) → paired ts [] ≡ []
paired-nil [] = refl
paired-nil (t ∷ ts) = refl

-- The descriptors that are accepted were handed over to these threads, and counted.
abbrev pub HandedOver : List ℕ → List ℤ → TcpServer → TcpServer → Type 0
HandedOver ts fds s s' =
    (s'.added ≡ s.added ++ paired ts fds) × (s'.m_tcp_counts ≡ s.m_tcp_counts + length fds)

-- A descriptor that is accepted goes to the thread that the pool deals out next.
accept_round-thread :
    (fd : ℤ) (fds : List ℤ) (s : TcpServer) (r : ℕ × IoThreadPool)
    → s.m_is_stop_accept ≡ false
    → eq_ℤ fd (negsuc 0) ≡ false
    → get_io_thread s.m_io_pool ≡ some r
    → main_accept_cor_func (fd ∷ fds) s ≡ main_accept_cor_func fds (accept_client fd s r)
unfolding main_accept_cor_func accept_on accept_round
accept_round-thread fd fds s r o e g = simp (o, e, g)

-- A failed `accept` is the last.
accept_round-failed :
    (fd : ℤ) (fds : List ℤ) (s : TcpServer)
    → s.m_is_stop_accept ≡ false
    → eq_ℤ fd (negsuc 0) ≡ true
    → main_accept_cor_func (fd ∷ fds) s ≡ some s
unfolding main_accept_cor_func
accept_round-failed fd fds s o e = simp (o, e)

main_accept_cor_func-deal :
    (fds : List ℤ) (ts : List ℕ) (s : TcpServer)
    → s.m_is_stop_accept ≡ false
    → deal (length (accepted fds)) s.m_io_pool ≡ some ts
    → Returns (main_accept_cor_func fds s) (HandedOver ts (accepted fds) s)
unfolding accept_client deal
main_accept_cor_func-deal [] ts s o h = (
  s,
  unfold main_accept_cor_func in refl,
  (sym (append-nil s.added) ∙ ap (λ t. s.added ++ t) (sym (paired-nil ts)), omega arith),
)
main_accept_cor_func-deal (fd ∷ fds) ts s o h = elim (Bool-cases (eq_ℤ fd (negsuc 0))) [
  | inl e ↦ (
    s,
    accept_round-failed fd fds s o e,
    simp e (sym (append-nil s.added) ∙ ap (λ t. s.added ++ t) (sym (paired-nil ts)), omega arith),
  )
  | inr e ↦
      let (t, f, k) = >>=-eq-some (get_io_thread s.m_io_pool) _ (rw e at h) in
      let (more, f', k') = >>=-eq-some (deal (length (accepted fds)) t.1) _ k in
      let is : t.0 ∷ more ≡ ts = some-injective _ _ k' in
      let (r, g, (x, y)) = main_accept_cor_func-deal fds more (accept_client fd s t) o f' in
      let handed : HandedOver (t.0 ∷ more) (fd ∷ accepted fds) s r = (
        x ∙ append_assoc s.added ((t.0, fd) ∷ []) (paired more (accepted fds)),
        omega (arith, y),
      ) in
      (
        r,
        accept_round-thread fd fds s t o e f ∙ g,
        simp e (subst (λ l. HandedOver l (fd ∷ accepted fds) s r) is handed),
      )
]

-- On a server that is not stopped and whose pool of `n` threads is new, the descriptors that are
-- accepted up to the first failed `accept` are counted, and their coroutines are handed over in order,
-- to the threads in turn; those behind it are not.
pub main_accept_cor_func-HandedOver :
    (n : ℕ) (fds : List ℤ) (s : TcpServer)
    → 0 < n
    → s.m_is_stop_accept ≡ false
    → s.m_io_pool ≡ new_pool n
    → Returns
        (main_accept_cor_func fds s)
        (HandedOver (in_turn n 0 (length (accepted fds))) (accepted fds) s)
main_accept_cor_func-HandedOver n fds s p o h =
    main_accept_cor_func-deal fds (in_turn n 0 (length (accepted fds))) s o
      (ap (deal (length (accepted fds))) h ∙ deal-new_pool n (length (accepted fds)) p)
