-- ===== src/Net/Reactor/Registered.antt =====
-- flconc/net/base/reactor.cc: `m_fds` is the set of descriptors that the kernel has registered.
use flconc.Base.{
  ◌≡◌, refl, sym, ap, ◌∙◌, ◌||◌, Bool, true, false, List, [], ◌∷◌, ◌++◌, Option, arith,
  if◌then◌else◌, Bool-cases, Option-cases, inl, inr, subst,
}
use flconc.Base.Int.{ℤ, eq_ℤ, eq_ℤ→eq, eq_ℤ_refl, ltb_ℤ}
use flconc.Net.FdEvent.{Events}
use flconc.Net.Reactor.{
  Reactor, EpollCtl, ctl_add, ctl_mod, ctl_del, PendingAdd, contains_fd, erase_fd, insert_pending,
  added, deleted, add_event_in_loop_thread, del_event_in_loop_thread, add_pending, del_pending,
  flush,
}

pub contains_fd-append :
    (x fd : ℤ) (xs : List ℤ) → contains_fd x (xs ++ fd ∷ []) ≡ (contains_fd x xs || eq_ℤ fd x)
contains_fd-append x fd [] = ground arith
contains_fd-append x fd (y ∷ xs) = ground (arith, contains_fd-append x fd xs)

eq_ℤ-false_sym : (a b : ℤ) → eq_ℤ a b ≡ false → eq_ℤ b a ≡ false
eq_ℤ-false_sym a b h = elim (Bool-cases (eq_ℤ b a)) [
  | inl e ↦ absurd (cc (sym (eq_ℤ_refl b) ∙ subst (λ t. eq_ℤ t b ≡ false) (sym (eq_ℤ→eq b a e)) h))
  | inr e ↦ e
]

or_false : (a b : Bool) → (a || b) ≡ false → (a ≡ false) × (b ≡ false)
or_false true b h = cc
or_false false b h = (refl, h)

-- No descriptor stands in the list twice.
abbrev pub Once : List ℤ → Type 0
Once [] = Unit {0}
Once (x ∷ xs) = (contains_fd x xs ≡ false) × Once xs

contains_fd-erase_fd :
    (x fd : ℤ) (xs : List ℤ)
    → Once xs
    → contains_fd x (erase_fd fd xs) ≡ (if eq_ℤ fd x then false else contains_fd x xs)
contains_fd-erase_fd x fd [] o = ground arith
contains_fd-erase_fd x fd (y ∷ xs) o = elim (Bool-cases (eq_ℤ y fd)) [
  | inl e ↦
      let same : y ≡ fd = eq_ℤ→eq y fd e in
      elim (Bool-cases (eq_ℤ fd x)) [
        | inl f ↦
            let gone : contains_fd x xs ≡ false =
              subst (λ t. contains_fd t xs ≡ false) (same ∙ eq_ℤ→eq fd x f) o.0 in
            simp (e, f, gone)
        | inr f ↦
            let other : eq_ℤ y x ≡ false = subst (λ t. eq_ℤ t x ≡ false) (sym same) f in
            simp (e, f, other)
      ]
  | inr e ↦ elim (Bool-cases (eq_ℤ fd x)) [
    | inl f ↦
        let other : eq_ℤ y x ≡ false = subst (λ t. eq_ℤ y t ≡ false) (eq_ℤ→eq fd x f) e in
        simp (e, f, other, contains_fd-erase_fd x fd xs o.1)
    | inr f ↦ simp (e, f, contains_fd-erase_fd x fd xs o.1)
  ]
]

Once-append : (fd : ℤ) (xs : List ℤ) → Once xs → contains_fd fd xs ≡ false → Once (xs ++ fd ∷ [])
Once-append fd [] o n = (refl, tt)
Once-append fd (y ∷ xs) o n =
    let other : eq_ℤ fd y ≡ false =
      eq_ℤ-false_sym y fd (or_false (eq_ℤ y fd) (contains_fd fd xs) n).0 in
    (
      contains_fd-append y fd xs ∙ simp (o.0, other),
      Once-append fd xs o.1 (or_false (eq_ℤ y fd) (contains_fd fd xs) n).1,
    )

absent : (y fd : ℤ) (xs : List ℤ) → Once (y ∷ xs) → contains_fd y (erase_fd fd xs) ≡ false
absent y fd xs o = elim (Bool-cases (eq_ℤ fd y)) [
  | inl f ↦ contains_fd-erase_fd y fd xs o.1 ∙ simp f
  | inr f ↦ contains_fd-erase_fd y fd xs o.1 ∙ simp (f, o.0)
]

Once-erase_fd : (fd : ℤ) (xs : List ℤ) → Once xs → Once (erase_fd fd xs)
Once-erase_fd fd [] o = tt
Once-erase_fd fd (y ∷ xs) o = elim (Bool-cases (eq_ℤ y fd)) [
  | inl e ↦ rw e o.1
  | inr e ↦ rw e (absent y fd xs o, Once-erase_fd fd xs o.1)
]

pub absent_fd :
    (x fd : ℤ) (xs : List ℤ)
    → contains_fd fd xs ≡ false
    → contains_fd x xs ≡ (if eq_ℤ fd x then false else contains_fd x xs)
absent_fd x fd xs c = elim (Bool-cases (eq_ℤ fd x)) [
  | inl e ↦ subst (λ t. contains_fd t xs ≡ false) (eq_ℤ→eq fd x e) c ∙ simp e
  | inr e ↦ simp e
]

module _ {K : Type 0} (epoll_ctl : K → EpollCtl → Option K) where
  pub Once-add :
      (fd : ℤ) (event : Events) (r : Reactor K)
      → Once r.m_fds
      → Once (add_event_in_loop_thread epoll_ctl fd event r).m_fds
  unfolding add_event_in_loop_thread added
  Once-add fd event r o = elim (Bool-cases (contains_fd fd r.m_fds)) [
    | inl c ↦ elim (Option-cases (epoll_ctl r.m_epoll (ctl_mod fd event))) [
      | inl e ↦ simp (c, e) o
      | inr (k, e) ↦ simp (c, e) o
    ]
    | inr c ↦ elim (Option-cases (epoll_ctl r.m_epoll (ctl_add fd event))) [
      | inl e ↦ simp (c, e) o
      | inr (k, e) ↦ simp (c, e) (Once-append fd r.m_fds o c)
    ]
  ]

  m_fds-del :
      (fd : ℤ) (r : Reactor K)
      → (del_event_in_loop_thread epoll_ctl fd r).m_fds
        ≡ (if contains_fd fd r.m_fds then erase_fd fd r.m_fds else r.m_fds)
  unfolding del_event_in_loop_thread deleted
  m_fds-del fd r = elim (Option-cases (epoll_ctl r.m_epoll (ctl_del fd))) [
    | inl e ↦ elim (Bool-cases (contains_fd fd r.m_fds)) [ inl c ↦ simp (c, e) | inr c ↦ simp c ]
    | inr (k, e) ↦ elim (Bool-cases (contains_fd fd r.m_fds)) [
      | inl c ↦ simp (c, e)
      | inr c ↦ simp c
    ]
  ]

  pub Once-del :
      (fd : ℤ) (r : Reactor K) → Once r.m_fds → Once (del_event_in_loop_thread epoll_ctl fd r).m_fds
  Once-del fd r o = elim (Bool-cases (contains_fd fd r.m_fds)) [
    | inl c ↦ subst Once (sym (m_fds-del fd r ∙ simp c)) (Once-erase_fd fd r.m_fds o)
    | inr c ↦ subst Once (sym (m_fds-del fd r ∙ simp c)) o
  ]

  -- What a deletion leaves of each descriptor.
  pub contains_fd-del :
      (x fd : ℤ) (r : Reactor K)
      → Once r.m_fds
      → contains_fd x (del_event_in_loop_thread epoll_ctl fd r).m_fds
        ≡ (if eq_ℤ fd x then false else contains_fd x r.m_fds)
  contains_fd-del x fd r o = elim (Bool-cases (contains_fd fd r.m_fds)) [
    | inl c ↦
        let left : (del_event_in_loop_thread epoll_ctl fd r).m_fds ≡ erase_fd fd r.m_fds =
          m_fds-del fd r ∙ simp c in
        ap (contains_fd x) left ∙ contains_fd-erase_fd x fd r.m_fds o
    | inr c ↦
        let left : (del_event_in_loop_thread epoll_ctl fd r).m_fds ≡ r.m_fds =
          m_fds-del fd r ∙ simp c in
        ap (contains_fd x) left ∙ absent_fd x fd r.m_fds c
  ]

  Once-add_pending :
      (ps : List PendingAdd) (r : Reactor K)
      → Once r.m_fds
      → Once (add_pending epoll_ctl ps r).m_fds
  unfolding add_pending
  Once-add_pending [] r o = o
  Once-add_pending (p ∷ ps) r o =
      Once-add_pending ps (add_event_in_loop_thread epoll_ctl p.fd p.event r)
        (Once-add p.fd p.event r o)

  Once-del_pending :
      (fds : List ℤ) (r : Reactor K) → Once r.m_fds → Once (del_pending epoll_ctl fds r).m_fds
  unfolding del_pending
  Once-del_pending [] r o = o
  Once-del_pending (fd ∷ fds) r o =
      Once-del_pending fds (del_event_in_loop_thread epoll_ctl fd r) (Once-del fd r o)

  contains_fd-del_pending :
      (x : ℤ) (fds : List ℤ) (r : Reactor K)
      → Once r.m_fds
      → contains_fd x (del_pending epoll_ctl fds r).m_fds
        ≡ (if contains_fd x fds then false else contains_fd x r.m_fds)
  unfolding del_pending
  contains_fd-del_pending x [] r o = refl
  contains_fd-del_pending x (fd ∷ fds) r o =
      let r' : Reactor K = del_event_in_loop_thread epoll_ctl fd r in
      contains_fd-del_pending x fds r' (Once-del fd r o) ∙ ground (arith, contains_fd-del x fd r o)

  -- At the end of a round every descriptor whose deletion another thread asked for is gone from `m_fds`, also
  -- where its addition was asked for later than its deletion, whatever `epoll_ctl` answers.
  pub flush-deleted :
      (x : ℤ) (r : Reactor K)
      → Once r.m_fds
      → contains_fd x r.m_pending_del_fds ≡ true
      → contains_fd x (flush epoll_ctl r).m_fds ≡ false
  unfolding flush
  flush-deleted x r o h =
      let r' : Reactor K =
        add_pending epoll_ctl r.m_pending_add_fds
          (record r { m_pending_add_fds = []; m_pending_del_fds = [] }) in
      contains_fd-del_pending x r.m_pending_del_fds r' (Once-add_pending r.m_pending_add_fds _ o)
      ∙ simp h

-- A second `addEvent` of another thread before the round ends, for the same descriptor, is lost: the
-- events that were asked for first stay.
pub insert_pending-again :
    (fd : ℤ) (first second : Events) (ps : List PendingAdd)
    → insert_pending fd second (insert_pending fd first ps) ≡ insert_pending fd first ps
unfolding insert_pending
insert_pending-again fd first second [] = simp (eq_ℤ_refl fd)
insert_pending-again fd first second (p ∷ ps) = elim (Bool-cases (eq_ℤ p.fd fd)) [
  | inl e ↦ simp (e, e)
  | inr e ↦ elim (Bool-cases (ltb_ℤ fd p.fd)) [
    | inl l ↦ simp (e, l, eq_ℤ_refl fd)
    | inr l ↦ simp (e, l, insert_pending-again fd first second ps)
  ]
]
