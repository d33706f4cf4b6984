-- ===== src/Examples/Reactor.antt =====
-- flconc/net/base/reactor.cc over a kernel that keeps the set of its descriptors.
use mathlib.Core.Option.{some-injective}
use flconc.Base.{
  ℕ, ◌≡◌, refl, sym, ap, ◌||◌, Bool, true, false, List, [], ◌∷◌, ◌++◌, Option, none, some,
  if◌then◌else◌, Bool-cases, inl, inr, Returns, map,
}
use flconc.Base.Int.{ℤ, pos, negsuc, eq_ℤ}
use flconc.Net.FdEvent.{Events, no_events, FdEvent}
use flconc.Net.Reactor.{Reactor, sub_reactor, EpollCtl, ctl_add, ctl_mod, ctl_del}
use flconc.Net.Reactor.Agrees.{
  IsEpoll, adds, dels, posts, stops, flushes, calls, Agrees, calls-Agrees,
}
use flconc.Net.Reactor.Loop.{Act, resumed, LoopState, Ready, ready, after_wait}
use flconc.Net.Reactor.Resumes.{Wakes, none_ready, one_ready, queued, resumes, sub_reactor-resumes}

abbrev Kernel : Type 0
Kernel = ℤ → Bool

abbrev registered : ℤ → Kernel → Bool
registered fd k = k fd

abbrev epoll_ctl : Kernel → EpollCtl → Option Kernel
epoll_ctl k (ctl_add fd event) = if k fd then none else some (λ x. k x || eq_ℤ fd x)
epoll_ctl k (ctl_mod fd event) = some k
epoll_ctl k (ctl_del fd) = some (λ x. if eq_ℤ fd x then false else k x)

kernel-IsEpoll : IsEpoll epoll_ctl registered
kernel-IsEpoll = record {
  adds = λ k k' fd event h x. elim (Bool-cases (k fd)) [
    | inl e ↦ absurd (cc (rw e at h))
    | inr e ↦ ap (λ f. f x) (sym (some-injective _ _ (rw e at h)))
  ];
  mods = λ k k' fd event h x. ap (λ f. f x) (sym (some-injective _ _ h));
  dels = λ k k' fd h x. ap (λ f. f x) (sym (some-injective _ _ h));
  del_works = λ k fd h. ((λ x. if eq_ℤ fd x then false else k x), refl);
}

abbrev reads : Events
reads = record no_events { reads = true }

-- Descriptor 5 is registered; another thread has asked to delete it, and then to add it.
abbrev reactor : Reactor Kernel
reactor = record {
  m_epoll = λ x. eq_ℤ (pos 5) x;
  m_timer_fd = negsuc 0;
  m_stop_flag = false;
  m_is_looping = true;
  m_fds = pos 5 ∷ [];
  m_pending_add_fds = record { fd = pos 5; event = reads } ∷ [];
  m_pending_del_fds = pos 5 ∷ [];
  m_pending_tasks = some 7 ∷ none ∷ some 8 ∷ [];
  m_has_timer = false;
  m_reactor_type = sub_reactor;
  wakes = 0;
}

or_false : (b : Bool) → b ≡ (b || false)
or_false true = refl
or_false false = refl

reactor-Agrees : Agrees epoll_ctl registered reactor
reactor-Agrees = ((refl, tt), λ x. or_false (eq_ℤ (pos 5) x))

calls-Agrees_example : Agrees epoll_ctl registered (
    calls epoll_ctl registered reactor (
      adds true (pos 6) reads false
      ∷ dels false (pos 6) true
      ∷ posts none true
      ∷ flushes
      ∷ stops
      ∷ []))
calls-Agrees_example =
    calls-Agrees epoll_ctl registered kernel-IsEpoll reactor
      (adds true (pos 6) reads false
        ∷ dels false (pos 6) true
        ∷ posts none true
        ∷ flushes
        ∷ stops
        ∷ [])
      reactor-Agrees

-- What is run posts a task.
abbrev acts_on : Act → Reactor Kernel → Reactor Kernel
acts_on a r = record r { m_pending_tasks = r.m_pending_tasks ++ some 9 ∷ [] }

abbrev state : LoopState Kernel
state = record {
  reactor = reactor;
  first_coroutine = none;
  task_queue = [];
  acts = [];
  taken = [];
  self = 1;
}

abbrev fd_event : ℕ → FdEvent
fd_event c = record {
  m_fd = pos c;
  m_read_callback = none;
  m_write_callback = none;
  m_listen_events = reads;
  m_reactor = none;
  m_coroutine = some c;
}

abbrev report : List Ready
report = ready (fd_event 5) true false ∷ ready (fd_event 6) true false ∷ []

report-Wakes : Wakes report (5 ∷ 6 ∷ [])
report-Wakes =
    one_ready (fd_event 5) 5 true false refl refl
      (one_ready (fd_event 6) 6 true false refl refl none_ready)

sub_reactor-resumes_example : Returns (after_wait epoll_ctl acts_on (some report) state) (λ s'.
    (resumes epoll_ctl acts_on s').acts
    ≡ [] ++ map resumed (some 5 ∷ (queued [] ++ map some (6 ∷ []))))
sub_reactor-resumes_example =
    sub_reactor-resumes epoll_ctl acts_on report 5 (6 ∷ []) state (λ a r. refl) report-Wakes refl
      refl
