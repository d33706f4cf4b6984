-- ===== src/Net/Reactor/Agrees.antt =====
-- flconc/net/base/reactor.cc: whatever is called, `m_fds` stays what the kernel has registered.
use flconc.Base.{
  ℕ, ◌≡◌, sym, ap, ◌∙◌, ◌||◌, Bool, true, false, List, [], ◌∷◌, Option, some, if◌then◌else◌,
  Bool-cases, Option-cases, inl, inr, not,
}
use flconc.Base.Int.{ℤ, negsuc, eq_ℤ}
use flconc.Net.FdEvent.{Events}
use flconc.Net.Reactor.{
  Reactor, EpollCtl, ctl_add, ctl_mod, ctl_del, PendingAdd, contains_fd, wakeup, wake_if, add_task,
  stop, added, deleted, add_event_in_loop_thread, del_event_in_loop_thread, add_event, del_event,
  add_pending, del_pending, flush,
}
use flconc.Net.Reactor.Registered.{
  Once, Once-add, Once-del, contains_fd-append, contains_fd-del, absent_fd,
}

-- What `epoll_ctl` promises of the registered descriptors. An addition or a change may fail; a
-- deletion of a registered descriptor works.
pub record IsEpoll {K : Type 0} (epoll_ctl : K → EpollCtl → Option K) (registered : ℤ → K → Bool)
    : Type 0 where
  pub adds :
      (k k' : K) (fd : ℤ) (event : Events)
      → epoll_ctl k (ctl_add fd event) ≡ some k'
      → (x : ℤ) → registered x k' ≡ (registered x k || eq_ℤ fd x)
  pub mods :
      (k k' : K) (fd : ℤ) (event : Events)
      → epoll_ctl k (ctl_mod fd event) ≡ some k'
      → (x : ℤ) → registered x k' ≡ registered x k
  pub dels :
      (k k' : K) (fd : ℤ)
      → epoll_ctl k (ctl_del fd) ≡ some k'
      → (x : ℤ) → registered x k' ≡ (if eq_ℤ fd x then false else registered x k)
  pub del_works :
      (k : K) (fd : ℤ) → registered fd k ≡ true → (k' : K) × (epoll_ctl k (ctl_del fd) ≡ some k')

pub data Call : Type 0 where
  adds : Bool → ℤ → Events → Bool → Call
  dels : Bool → ℤ → Bool → Call
  posts : Option ℕ → Bool → Call
  stops flushes : Call

module _ {K : Type 0} (epoll_ctl : K → EpollCtl → Option K) (registered : ℤ → K → Bool) where
  unfoldable pub call : Reactor K → Call → Reactor K
  call r (adds in_loop fd event is_wakeup) = add_event epoll_ctl in_loop fd event is_wakeup r
  call r (dels in_loop fd is_wakeup) = del_event epoll_ctl in_loop fd is_wakeup r
  call r (posts task is_wakeup) = add_task task is_wakeup r
  call r stops = stop r
  call r flushes = flush epoll_ctl r

  unfoldable pub calls : Reactor K → List Call → Reactor K
  calls r [] = r
  calls r (x ∷ xs) = calls (call r x) xs

  -- Every descriptor of `m_fds` stands there once, and those are the registered ones.
  abbrev pub Agrees : Reactor K → Type 0
  Agrees r = Once r.m_fds × ((x : ℤ) → registered x r.m_epoll ≡ contains_fd x r.m_fds)

  module _ (laws : IsEpoll epoll_ctl registered) where
    add-Agrees :
        (fd : ℤ) (event : Events) (r : Reactor K)
        → Agrees r
        → Agrees (add_event_in_loop_thread epoll_ctl fd event r)
    unfolding add_event_in_loop_thread added
    add-Agrees fd event r (o, same) = (Once-add epoll_ctl fd event r o, at)
      where
        at :
            (x : ℤ)
            → registered x (add_event_in_loop_thread epoll_ctl fd event r).m_epoll
              ≡ contains_fd x (add_event_in_loop_thread epoll_ctl fd event r).m_fds
        at x = elim (Bool-cases (contains_fd fd r.m_fds)) [
          | inl c ↦ elim (Option-cases (epoll_ctl r.m_epoll (ctl_mod fd event))) [
            | inl e ↦ simp (c, e) (same x)
            | inr (k, e) ↦ simp (c, e) (laws.mods r.m_epoll k fd event e x ∙ same x)
          ]
          | inr c ↦ elim (Option-cases (epoll_ctl r.m_epoll (ctl_add fd event))) [
            | inl e ↦ simp (c, e) (same x)
            | inr (k, e) ↦
                simp (c, e)
                  (laws.adds r.m_epoll k fd event e x
                    ∙ ap (λ b. b || eq_ℤ fd x) (same x)
                    ∙ sym (contains_fd-append x fd r.m_fds))
          ]
        ]

    -- The kernel's set after a deletion.
    registered-del :
        (x fd : ℤ) (r : Reactor K)
        → Agrees r
        → registered x (del_event_in_loop_thread epoll_ctl fd r).m_epoll
          ≡ (if eq_ℤ fd x then false else contains_fd x r.m_fds)
    unfolding del_event_in_loop_thread deleted
    registered-del x fd r (o, same) = elim (Bool-cases (contains_fd fd r.m_fds)) [
      | inl c ↦
          let (k, e) = laws.del_works r.m_epoll fd (same fd ∙ c) in
          simp (c, e)
            (laws.dels r.m_epoll k fd e x ∙ ap (λ b. if eq_ℤ fd x then false else b) (same x))
      | inr c ↦ simp c (same x ∙ absent_fd x fd r.m_fds c)
    ]

    del-Agrees :
        (fd : ℤ) (r : Reactor K) → Agrees r → Agrees (del_event_in_loop_thread epoll_ctl fd r)
    del-Agrees fd r h = (
      Once-del epoll_ctl fd r h.0,
      λ x. registered-del x fd r h ∙ sym (contains_fd-del epoll_ctl x fd r h.0),
    )

    add_pending-Agrees :
        (ps : List PendingAdd) (r : Reactor K) → Agrees r → Agrees (add_pending epoll_ctl ps r)
    unfolding add_pending
    add_pending-Agrees [] r h = h
    add_pending-Agrees (p ∷ ps) r h =
        add_pending-Agrees ps (add_event_in_loop_thread epoll_ctl p.fd p.event r)
          (add-Agrees p.fd p.event r h)

    del_pending-Agrees :
        (fds : List ℤ) (r : Reactor K) → Agrees r → Agrees (del_pending epoll_ctl fds r)
    unfolding del_pending
    del_pending-Agrees [] r h = h
    del_pending-Agrees (fd ∷ fds) r h =
        del_pending-Agrees fds (del_event_in_loop_thread epoll_ctl fd r) (del-Agrees fd r h)

    pub flush-Agrees : (r : Reactor K) → Agrees r → Agrees (flush epoll_ctl r)
    unfolding flush
    flush-Agrees r h =
        del_pending-Agrees r.m_pending_del_fds _ (add_pending-Agrees r.m_pending_add_fds _ h)

    wakeup-Agrees : (r : Reactor K) → Agrees r → Agrees (wakeup r)
    unfolding wakeup
    wakeup-Agrees r h = elim (Bool-cases r.m_is_looping) [ inl e ↦ simp e h | inr e ↦ simp e h ]

    wake_if-Agrees : (b : Bool) (r : Reactor K) → Agrees r → Agrees (wake_if b r)
    wake_if-Agrees true r h = wakeup-Agrees r h
    wake_if-Agrees false r h = h

    call-Agrees : (r : Reactor K) (x : Call) → Agrees r → Agrees (call r x)
    unfolding call add_event del_event add_task stop
    call-Agrees r (adds in_loop fd event wakes) h = elim (Bool-cases (eq_ℤ fd (negsuc 0))) [
      | inl e ↦ simp e h
      | inr e ↦ elim (Bool-cases in_loop) [
        | inl t ↦ simp (e, t) (add-Agrees fd event r h)
        | inr t ↦ simp (e, t) (wake_if-Agrees wakes _ h)
      ]
    ]
    call-Agrees r (dels in_loop fd wakes) h = elim (Bool-cases (eq_ℤ fd (negsuc 0))) [
      | inl e ↦ simp e h
      | inr e ↦ elim (Bool-cases in_loop) [
        | inl t ↦ simp (e, t) (del-Agrees fd r h)
        | inr t ↦ simp (e, t) (wake_if-Agrees wakes _ h)
      ]
    ]
    call-Agrees r (posts task wakes) h = wake_if-Agrees wakes _ h
    call-Agrees r stops h = elim (Bool-cases (r.m_stop_flag || not r.m_is_looping)) [
      | inl e ↦ simp e h
      | inr e ↦ simp e (wakeup-Agrees _ h)
    ]
    call-Agrees r flushes h = flush-Agrees r h

    -- Where `epoll_ctl` registers and unregisters what it is told and a deletion of a registered descriptor
    -- works, additions and changes failing or not: whatever is called from whichever thread, in
    -- any order, `m_fds` holds each registered descriptor once and nothing else.
    pub calls-Agrees : (r : Reactor K) (xs : List Call) → Agrees r → Agrees (calls r xs)
    unfolding calls
    calls-Agrees r [] h = h
    calls-Agrees r (x ∷ xs) h = calls-Agrees (call r x) xs (call-Agrees r x h)
