-- ===== src/Net/Reactor/Kind.antt =====
-- flconc/net/base/reactor.cc: what the operations on descriptors do not change.
use flconc.Base.{
  ◌≡◌, refl, ◌∙◌, Bool, true, false, List, [], ◌∷◌, Option, none, some, Bool-cases, Option-cases,
  inl, inr,
}
use flconc.Base.Int.{ℤ}
use flconc.Net.Reactor.{
  Reactor, EpollCtl, ctl_add, ctl_mod, ctl_del, PendingAdd, contains_fd, added, deleted,
  add_event_in_loop_thread, del_event_in_loop_thread, add_pending, del_pending, flush,
}

-- The operations on descriptors leave the type of the reactor.
module _ {K : Type 0} (epoll_ctl : K → EpollCtl → Option K) where
  pub type-del :
      (fd : ℤ) (r : Reactor K)
      → (del_event_in_loop_thread epoll_ctl fd r).m_reactor_type ≡ r.m_reactor_type
  unfolding del_event_in_loop_thread deleted
  type-del fd r = elim (Option-cases (epoll_ctl r.m_epoll (ctl_del fd))) [
    | inl e ↦ elim (Bool-cases (contains_fd fd r.m_fds)) [ inl c ↦ simp (c, e) | inr c ↦ simp c ]
    | inr (k, e) ↦ elim (Bool-cases (contains_fd fd r.m_fds)) [
      | inl c ↦ simp (c, e)
      | inr c ↦ simp c
    ]
  ]

  type-added :
      (fd : ℤ) (b : Bool) (r : Reactor K) (o : Option K)
      → (added epoll_ctl fd b r o).m_reactor_type ≡ r.m_reactor_type
  unfolding added
  type-added fd b r none = refl
  type-added fd true r (some k) = refl
  type-added fd false r (some k) = refl

  type-add_pending :
      (ps : List PendingAdd) (r : Reactor K)
      → (add_pending epoll_ctl ps r).m_reactor_type ≡ r.m_reactor_type
  unfolding add_pending add_event_in_loop_thread
  type-add_pending [] r = refl
  type-add_pending (p ∷ ps) r = elim (Bool-cases (contains_fd p.fd r.m_fds)) [
    | inl c ↦ simp c (
        type-add_pending ps
          (added epoll_ctl p.fd false r (epoll_ctl r.m_epoll (ctl_mod p.fd p.event)))
        ∙ type-added p.fd false r (epoll_ctl r.m_epoll (ctl_mod p.fd p.event)))
    | inr c ↦ simp c (
        type-add_pending ps
          (added epoll_ctl p.fd true r (epoll_ctl r.m_epoll (ctl_add p.fd p.event)))
        ∙ type-added p.fd true r (epoll_ctl r.m_epoll (ctl_add p.fd p.event)))
  ]

  type-del_pending :
      (fds : List ℤ) (r : Reactor K)
      → (del_pending epoll_ctl fds r).m_reactor_type ≡ r.m_reactor_type
  unfolding del_pending
  type-del_pending [] r = refl
  type-del_pending (fd ∷ fds) r =
      type-del_pending fds (del_event_in_loop_thread epoll_ctl fd r) ∙ type-del fd r

  pub type-flush : (r : Reactor K) → (flush epoll_ctl r).m_reactor_type ≡ r.m_reactor_type
  unfolding flush
  type-flush r = type-del_pending r.m_pending_del_fds _ ∙ type-add_pending r.m_pending_add_fds _
