-- ===== src/Net/Reactor/Resumes.antt =====
-- flconc/net/base/reactor.cc: which coroutines a round of `loop` resumes, and in which order.
use flconc.Base.{
  ℕ, ◌≡◌, refl, sym, ap, ◌∙◌, ◌||◌, Bool, true, false, List, [], ◌∷◌, ◌++◌, Option, none, some,
  Returns, map, append_assoc, append-nil,
}
use flconc.Net.FdEvent.{FdEvent, set_reactor}
use flconc.Net.Reactor.{
  Reactor, main_reactor, sub_reactor, EpollCtl, del_event_in_loop_thread, flush,
}
use flconc.Net.Reactor.Kind.{type-del, type-flush}
use flconc.Net.Reactor.Loop.{
  push, Act, resumed, ran, LoopState, Ready, ready, is_main, do_act, taken_by, resume_if,
  resume_first, resume_all, resume_queue, run_tasks, run_pending, ready_next, ready_coroutine,
  ready_of, handle_ready, handle_all, after_wait,
}

-- Events of descriptors with these coroutines, in this order, each with EPOLLIN or EPOLLOUT.
pub data Wakes : List Ready → List ℕ → Type 0 where
  none_ready : Wakes [] []
  one_ready :
      {xs : List Ready} {cs : List ℕ} (e : FdEvent) (c : ℕ) (in_ out_ : Bool)
      → e.m_coroutine ≡ some c
      → (in_ || out_) ≡ true
      → Wakes xs cs
      → Wakes (ready e in_ out_ ∷ xs) (c ∷ cs)

-- The coroutines of the queue.
abbrev pub queued : List FdEvent → List (Option ℕ)
queued es = map (λ e. e.m_coroutine) es

map-append : (es fs : List FdEvent) → queued (es ++ fs) ≡ queued es ++ queued fs
map-append [] fs = refl
map-append (e ∷ es) fs = ap (◌∷◌ e.m_coroutine) (map-append es fs)

-- The tasks that are not null.
abbrev pub started : List (Option ℕ) → List Act
started [] = []
started (none ∷ ts) = started ts
started (some t ∷ ts) = ran t ∷ started ts

module _ {K : Type 0} (acts_on : Act → Reactor K → Reactor K) where
  resume_all-acts :
      (es : List FdEvent) (s : LoopState K)
      → (resume_all acts_on es s).acts ≡ s.acts ++ map resumed (queued es)
  unfolding resume_all do_act
  resume_all-acts [] s = sym (append-nil s.acts)
  resume_all-acts (e ∷ es) s =
      resume_all-acts es (do_act acts_on (resumed e.m_coroutine) (taken_by acts_on e s))
      ∙ append_assoc s.acts (resumed e.m_coroutine ∷ []) (map resumed (queued es))

  run_tasks-acts :
      (ts : List (Option ℕ)) (s : LoopState K)
      → (run_tasks acts_on ts s).acts ≡ s.acts ++ started ts
  unfolding run_tasks do_act
  run_tasks-acts [] s = sym (append-nil s.acts)
  run_tasks-acts (none ∷ ts) s = run_tasks-acts ts s
  run_tasks-acts (some t ∷ ts) s =
      run_tasks-acts ts (do_act acts_on (ran t) s) ∙ append_assoc s.acts (ran t ∷ []) (started ts)

module _ {K : Type 0} (epoll_ctl : K → EpollCtl → Option K)
    (acts_on : Act → Reactor K → Reactor K) where
  -- These coroutines are put behind the queue, and nothing runs.
  abbrev Queues : LoopState K → List ℕ → LoopState K → Type 0
  Queues s cs s' =
      (s'.first_coroutine ≡ s.first_coroutine)
      × (queued s'.task_queue ≡ queued s.task_queue ++ map some cs)
      × (s'.acts ≡ s.acts)
      × (s'.reactor.m_reactor_type ≡ s.reactor.m_reactor_type)

  handle_ready-Queues :
      (e : FdEvent) (c first : ℕ) (in_ out_ : Bool) (s : LoopState K)
      → e.m_coroutine ≡ some c
      → (in_ || out_) ≡ true
      → s.reactor.m_reactor_type ≡ sub_reactor
      → s.first_coroutine ≡ some first
      → Returns (handle_ready epoll_ctl acts_on (ready e in_ out_) s) (Queues s (c ∷ []))
  unfolding handle_ready ready_of ready_coroutine ready_next push set_reactor
  handle_ready-Queues e c first in_ out_ s h b t f =
      let sub : is_main s.reactor.m_reactor_type ≡ false = ap is_main t in
      let s' : LoopState K = record s {
        reactor = del_event_in_loop_thread epoll_ctl e.m_fd s.reactor;
        task_queue = s.task_queue ++ record e { m_reactor = none } ∷ [];
      } in
      (
        s',
        simp (b, h, f, sub),
        (
          refl,
          map-append s.task_queue _ ∙ ap (λ o. queued s.task_queue ++ o ∷ []) h,
          refl,
          type-del epoll_ctl e.m_fd s.reactor,
        ),
      )

  handle_all-Queues :
      (xs : List Ready) (cs : List ℕ) (first : ℕ) (s : LoopState K)
      → Wakes xs cs
      → s.reactor.m_reactor_type ≡ sub_reactor
      → s.first_coroutine ≡ some first
      → Returns (handle_all epoll_ctl acts_on xs s) (Queues s cs)
  unfolding handle_all
  handle_all-Queues [] [] first s none_ready t f =
      (s, refl, (refl, sym (append-nil (queued s.task_queue)), refl, refl))
  handle_all-Queues [] (c ∷ cs) first s w t f = elim w [ ]
  handle_all-Queues (x ∷ xs) [] first s w t f = elim w [ ]
  handle_all-Queues (x ∷ xs) (c ∷ cs) first s (one_ready e _ in_ out_ h b w) t f =
      let (s', g, (p, q, a, k)) = handle_ready-Queues e c first in_ out_ s h b t f in
      let (r, g', (p', q', a', k')) = handle_all-Queues xs cs first s' w (k ∙ t) (p ∙ f) in
      (
        r,
        simp (g, g'),
        (
          p' ∙ p,
          q'
              ∙ ap (λ l. l ++ map some cs) q
              ∙ append_assoc (queued s.task_queue) (some c ∷ []) (map some cs),
          a' ∙ a,
          k' ∙ k,
        ),
      )

  -- The state once the next round has emptied the queue.
  unfoldable pub resumes : LoopState K → LoopState K
  resumes s = resume_queue acts_on (resume_first acts_on s)

  -- With a coroutine to be resumed first, the next round resumes it and then the queue.
  resumes-acts :
      (first : ℕ) (s : LoopState K)
      → ((a : Act) (r : Reactor K) → (acts_on a r).m_reactor_type ≡ r.m_reactor_type)
      → s.reactor.m_reactor_type ≡ sub_reactor
      → s.first_coroutine ≡ some first
      → (resumes s).acts ≡ s.acts ++ map resumed (some first ∷ queued s.task_queue)
  unfolding resumes resume_first resume_if resume_queue do_act
  resumes-acts first s keeps t f =
      let s' : LoopState K = record (do_act acts_on (resumed (some first)) s) {
        first_coroutine = none;
      } in
      let sub : is_main s'.reactor.m_reactor_type ≡ false =
        ap is_main (keeps (resumed (some first)) s.reactor ∙ t) in
      simp (f, sub)
        (resume_all-acts acts_on s.task_queue s'
          ∙ append_assoc s.acts (resumed (some first) ∷ []) (map resumed (queued s.task_queue)))

  -- On a sub reactor with no coroutine to be resumed first, while no other loop takes from the queue of the
  -- process or adds to it, when `epoll_wait` reports descriptors with coroutines, what these do leaves
  -- the type of the reactor, and the loop is not stopped: its next round resumes every one of the
  -- coroutines once, the one reported first before the queue as it was, the others behind it in the
  -- order of the report.
  pub sub_reactor-resumes :
      (xs : List Ready) (c : ℕ) (cs : List ℕ) (s : LoopState K)
      → ((a : Act) (r : Reactor K) → (acts_on a r).m_reactor_type ≡ r.m_reactor_type)
      → Wakes xs (c ∷ cs)
      → s.reactor.m_reactor_type ≡ sub_reactor
      → s.first_coroutine ≡ none
      → Returns (after_wait epoll_ctl acts_on (some xs) s) (λ s'.
        (resumes s').acts ≡ s.acts ++ map resumed (some c ∷ (queued s.task_queue ++ map some cs)))
  unfolding after_wait handle_all handle_ready ready_of ready_coroutine
  sub_reactor-resumes [] c cs s keeps w t f = elim w [ ]
  sub_reactor-resumes (x ∷ xs) c cs s keeps (one_ready e _ in_ out_ h b w) t f =
      let s₁ : LoopState K = record s { first_coroutine = some c } in
      let (r, g, (p, q, a, k)) = handle_all-Queues xs cs c s₁ w t refl in
      let s' : LoopState K = record r { reactor = flush epoll_ctl r.reactor } in
      (
        s',
        simp (b, h, f, g),
        resumes-acts c s' keeps (type-flush epoll_ctl r.reactor ∙ k ∙ t) p
            ∙ ap (λ l. l ++ map resumed (some c ∷ queued r.task_queue)) a
            ∙ ap (λ l. s.acts ++ map resumed (some c ∷ l)) q,
      )

  -- On the main reactor, of two descriptors with coroutines that `epoll_wait` reports together the first is
  -- never resumed: the second is resumed at once, and no coroutine is left to be resumed first.
  pub main_reactor-loses :
      (x y : Ready) (c d : ℕ) (s : LoopState K)
      → Wakes (x ∷ y ∷ []) (c ∷ d ∷ [])
      → s.reactor.m_reactor_type ≡ main_reactor
      → s.first_coroutine ≡ none
      → Returns (after_wait epoll_ctl acts_on (some (x ∷ y ∷ [])) s) (λ s'.
        (s'.acts ≡ s.acts ++ resumed (some d) ∷ [])
        × (s'.first_coroutine ≡ none)
        × (s'.task_queue ≡ s.task_queue))
  unfolding after_wait handle_all handle_ready ready_of ready_coroutine ready_next do_act
  main_reactor-loses x y c d s
        (one_ready e _ in_ out_ h b (one_ready e' _ in' out' h' b' none_ready)) t f =
      let main : is_main s.reactor.m_reactor_type ≡ true = ap is_main t in
      let r : LoopState K = record (do_act acts_on (resumed (some d)) s) {
        first_coroutine = none;
      } in
      (
        record r { reactor = flush epoll_ctl r.reactor },
        simp (b, h, f, b', h', main),
        (refl, refl, refl),
      )

-- The tasks that are pending when a round comes to them run once each, in the order they were posted, null
-- ones left out, whatever they do.
pub run_pending-started :
    {K : Type 0} (acts_on : Act → Reactor K → Reactor K) (s : LoopState K)
    → (run_pending acts_on s).acts ≡ s.acts ++ started s.reactor.m_pending_tasks
unfolding run_pending
run_pending-started acts_on s = run_tasks-acts acts_on s.reactor.m_pending_tasks _
