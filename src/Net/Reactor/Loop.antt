-- ===== src/Net/Reactor/Loop.antt =====
-- flconc/net/base/reactor.cc: `loop`, and `CoroutineTaskQueue`. What `epoll_wait` returns is a list of answers;
-- where the list ends the thread waits. What the code of a coroutine, a task or a callback does to
-- the reactor is a parameter. The queue is that of the process: `loop` is what happens while no other loop
-- pops or pushes. A ready descriptor comes
-- with its `FdEvent` as it is when its turn comes. `none` is a call of an empty function.
use flconc.Base.{
  ℕ, ◌||◌, Bool, true, false, List, [], ◌∷◌, ◌++◌, Option, none, some, if◌then◌else◌, ◌>>=◌,
}
use flconc.Base.Int.{eq_ℤ}
use flconc.Net.FdEvent.{FdEvent, read, write, set_reactor, get_call_back}
use flconc.Net.Reactor.{
  Reactor, ReactorType, main_reactor, sub_reactor, EpollCtl, del_event_in_loop_thread, flush,
}

-- `CoroutineTaskQueue::push` and `pop`
unfoldable pub push : FdEvent → List FdEvent → List FdEvent
push e queue = queue ++ e ∷ []

unfoldable pub pop : List FdEvent → Option FdEvent × List FdEvent
pop [] = (none, [])
pop (e ∷ es) = (some e, es)

-- A coroutine was resumed, or a task or a callback run.
pub data Act : Type 0 where
  resumed : Option ℕ → Act
  ran : ℕ → Act

-- `acts` is what was done since the loop started, and `taken` the events taken off the queue, each with this
-- reactor, whose address is `self`.
pub record LoopState (K : Type 0) : Type 0 where
  pub reactor : Reactor K
  pub first_coroutine : Option ℕ
  pub task_queue : List FdEvent
  pub acts : List Act
  pub taken : List FdEvent
  pub self : ℕ

-- One event of `epoll_wait`: the wake descriptor with EPOLLIN, an event whose pointer is null, or a
-- descriptor, and whether EPOLLIN and EPOLLOUT are set.
pub data Ready : Type 0 where
  woken null_event : Ready
  ready : FdEvent → Bool → Bool → Ready

abbrev pub is_main : ReactorType → Bool
is_main main_reactor = true
is_main sub_reactor = false

abbrev pub push_if : Bool → Option ℕ → List (Option ℕ) → List (Option ℕ)
push_if b task tasks = if b then tasks ++ task ∷ [] else tasks

module _ {K : Type 0} (acts_on : Act → Reactor K → Reactor K) where
  unfoldable pub do_act : Act → LoopState K → LoopState K
  do_act a s = record s { reactor = acts_on a s.reactor; acts = s.acts ++ a ∷ [] }

  unfoldable pub resume_if : Option ℕ → LoopState K → LoopState K
  resume_if none s = s
  resume_if (some c) s = record (do_act (resumed (some c)) s) { first_coroutine = none }

  unfoldable pub resume_first : LoopState K → LoopState K
  resume_first s = resume_if s.first_coroutine s

  -- `ptr->setReactor(this)`
  abbrev pub taken_by : FdEvent → LoopState K → LoopState K
  taken_by e s = record s { taken = s.taken ++ set_reactor (some s.self) e ∷ [] }

  -- `while (1)`: pop and resume, until the queue is empty.
  unfoldable pub resume_all : List FdEvent → LoopState K → LoopState K
  resume_all [] s = record s { task_queue = [] }
  resume_all (e ∷ es) s = resume_all es (do_act (resumed e.m_coroutine) (taken_by e s))

  unfoldable pub resume_queue : LoopState K → LoopState K
  resume_queue s = if is_main s.reactor.m_reactor_type then s else resume_all s.task_queue s

  unfoldable pub run_tasks : List (Option ℕ) → LoopState K → LoopState K
  run_tasks [] s = s
  run_tasks (none ∷ ts) s = run_tasks ts s
  run_tasks (some t ∷ ts) s = run_tasks ts (do_act (ran t) s)

  -- The pending tasks, swapped out before they run.
  unfoldable pub run_pending : LoopState K → LoopState K
  run_pending s =
      run_tasks s.reactor.m_pending_tasks
        (record s { reactor = record s.reactor { m_pending_tasks = [] } })

  -- A round up to `epoll_wait`.
  unfoldable pub before_wait : LoopState K → LoopState K
  before_wait s = run_pending (resume_queue (resume_first s))

module _ {K : Type 0} (epoll_ctl : K → EpollCtl → Option K)
    (acts_on : Act → Reactor K → Reactor K) where
  -- A descriptor with a coroutine, when another is to be resumed first.
  unfoldable pub ready_next : FdEvent → ℕ → LoopState K → LoopState K
  ready_next e c s =
      if is_main s.reactor.m_reactor_type
      then record (do_act acts_on (resumed (some c)) s) { first_coroutine = none }
      else record s {
        reactor = del_event_in_loop_thread epoll_ctl e.m_fd s.reactor;
        task_queue = push (set_reactor none e) s.task_queue;
      }

  unfoldable pub ready_coroutine : FdEvent → ℕ → Option ℕ → LoopState K → LoopState K
  ready_coroutine e c none s = record s { first_coroutine = some c }
  ready_coroutine e c (some first) s = ready_next e c s

  unfoldable pub timer_callback : Option ℕ → LoopState K → Option (LoopState K)
  timer_callback none s = none
  timer_callback (some cb) s = some (do_act acts_on (ran cb) s)

  -- A descriptor without a coroutine: the timer's callback runs at once, the others become tasks.
  unfoldable pub ready_callback : FdEvent → Bool → Bool → LoopState K → Option (LoopState K)
  ready_callback e in_ out_ s =
      if eq_ℤ e.m_fd s.reactor.m_timer_fd
      then timer_callback (get_call_back read e) s
      else some (record s {
        reactor = record s.reactor {
          m_pending_tasks =
              push_if out_ (get_call_back write e)
                (push_if in_ (get_call_back read e) s.reactor.m_pending_tasks);
        };
      })

  unfoldable pub ready_of : Option ℕ → FdEvent → Bool → Bool → LoopState K → Option (LoopState K)
  ready_of none e in_ out_ s = ready_callback e in_ out_ s
  ready_of (some c) e in_ out_ s = some (ready_coroutine e c s.first_coroutine s)

  -- An event; the reads of the wake descriptor take all that was written to it.
  unfoldable pub handle_ready : Ready → LoopState K → Option (LoopState K)
  handle_ready woken s = some (record s { reactor = record s.reactor { wakes = 0 } })
  handle_ready null_event s = some s
  handle_ready (ready e in_ out_) s =
      if in_ || out_
      then ready_of e.m_coroutine e in_ out_ s
      else some (record s { reactor = del_event_in_loop_thread epoll_ctl e.m_fd s.reactor })

  unfoldable pub handle_all : List Ready → LoopState K → Option (LoopState K)
  handle_all [] s = some s
  handle_all (x ∷ xs) s = do s' ← handle_ready x s; handle_all xs s'

  -- A round from `epoll_wait` on; `none` for an `epoll_wait` that fails.
  unfoldable pub after_wait : Option (List Ready) → LoopState K → Option (LoopState K)
  after_wait none s = some s
  after_wait (some xs) s = do
    s' ← handle_all xs s
    some (record s' { reactor = flush epoll_ctl s'.reactor })

  unfoldable pub loop_round :
      (LoopState K → Option (LoopState K))
      → Option (List Ready)
      → LoopState K
      → Option (LoopState K)
  loop_round loop answer s = do s' ← after_wait answer (before_wait acts_on s); loop s'

  abbrev pub ended : LoopState K → LoopState K
  ended s = record s { reactor = record s.reactor { m_is_looping = false } }

  -- `while (!m_stop_flag)`
  unfoldable pub loop_rounds : List (Option (List Ready)) → LoopState K → Option (LoopState K)
  loop_rounds [] s = if s.reactor.m_stop_flag then some (ended s) else some (before_wait acts_on s)
  loop_rounds (x ∷ xs) s =
      if s.reactor.m_stop_flag then some (ended s) else loop_round (loop_rounds xs) x s

  unfoldable pub loop :
      ℕ → List (Option (List Ready)) → Reactor K → List FdEvent → Option (LoopState K)
  loop self answers r queue =
      if r.m_is_looping
      then some (record {
        reactor = r;
        first_coroutine = none;
        task_queue = queue;
        acts = [];
        taken = [];
        self = self;
      })
      else loop_rounds answers (record {
        reactor = record r { m_is_looping = true; m_stop_flag = false };
        first_coroutine = none;
        task_queue = queue;
        acts = [];
        taken = [];
        self = self;
      })
