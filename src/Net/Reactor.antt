-- ===== src/Net/Reactor.antt =====
-- flconc/net/base/reactor.h and reactor.cc: the state of `Reactor`, its operations, and the queue of
-- ready descriptors that the loops share. The kernel's epoll instance is a parameter: a state, and what
-- `epoll_ctl` makes of it, `none` for a call that fails and changes nothing. Tasks and coroutines are
-- numbers. The locks are left out: each operation is one step.
pub mod Loop
pub mod Registered
pub mod Agrees
pub mod Kind
pub mod Resumes
use flconc.Base.{
  ℕ, zero, suc, ◌+◌, ◌||◌, Bool, true, false, List, [], ◌∷◌, ◌++◌, Option, none, some,
  if◌then◌else◌, is_empty, not,
}
use flconc.Base.Int.{ℤ, pos, negsuc, eq_ℤ, ltb_ℤ}
use flconc.Net.FdEvent.{Events, no_events}

pub data ReactorType : Type 0 where
  main_reactor sub_reactor : ReactorType

-- A call of `epoll_ctl`.
pub data EpollCtl : Type 0 where
  ctl_add ctl_mod : ℤ → Events → EpollCtl
  ctl_del : ℤ → EpollCtl

-- An entry of `m_pending_add_fds`.
pub record PendingAdd : Type 0 where
  pub fd : ℤ
  pub event : Events

-- `wakes` counts the writes to `m_wake_fd` that were not read yet. A null task is `none`.
pub record Reactor (K : Type 0) : Type 0 where
  pub m_epoll : K
  pub m_timer_fd : ℤ
  pub m_stop_flag : Bool
  pub m_is_looping : Bool
  pub m_fds : List ℤ
  pub m_pending_add_fds : List PendingAdd
  pub m_pending_del_fds : List ℤ
  pub m_pending_tasks : List (Option ℕ)
  pub m_has_timer : Bool
  pub m_reactor_type : ReactorType
  pub wakes : ℕ

-- `find(m_fds.begin(), m_fds.end(), fd) != m_fds.end()`
abbrev pub contains_fd : ℤ → List ℤ → Bool
contains_fd fd [] = false
contains_fd fd (x ∷ xs) = eq_ℤ x fd || contains_fd fd xs

-- `m_fds.erase(it)` of the first that is found.
abbrev pub erase_fd : ℤ → List ℤ → List ℤ
erase_fd fd [] = []
erase_fd fd (x ∷ xs) = if eq_ℤ x fd then xs else x ∷ erase_fd fd xs

-- `m_pending_add_fds.insert`: sorted by descriptor, and what is there under it is kept.
unfoldable pub insert_pending : ℤ → Events → List PendingAdd → List PendingAdd
insert_pending fd event [] = record { fd = fd; event = event } ∷ []
insert_pending fd event (p ∷ ps) =
    let rest = insert_pending fd event ps in
    if eq_ℤ p.fd fd
    then p ∷ ps
    else if ltb_ℤ fd p.fd
    then record { fd = fd; event = event } ∷ p ∷ ps
    else p ∷ rest

module _ {K : Type 0} where
  unfoldable pub wakeup : Reactor K → Reactor K
  wakeup r = if r.m_is_looping then record r { wakes = r.wakes + 1 } else r

  abbrev pub wake_if : Bool → Reactor K → Reactor K
  wake_if is_wakeup r = if is_wakeup then wakeup r else r

  -- `none` is a null function.
  unfoldable pub add_task : Option ℕ → Bool → Reactor K → Reactor K
  add_task task is_wakeup r =
      wake_if is_wakeup (record r { m_pending_tasks = r.m_pending_tasks ++ task ∷ [] })

  unfoldable pub add_tasks : List (Option ℕ) → Bool → Reactor K → Reactor K
  add_tasks tasks is_wakeup r =
      if is_empty tasks
      then r
      else wake_if is_wakeup (record r { m_pending_tasks = r.m_pending_tasks ++ tasks })

  -- The task that resumes a coroutine goes by the number of the coroutine.
  unfoldable pub add_coroutine : ℕ → Bool → Reactor K → Reactor K
  add_coroutine cor is_wakeup r = add_task (some cor) is_wakeup r

  unfoldable pub stop : Reactor K → Reactor K
  stop r =
      if r.m_stop_flag || not r.m_is_looping then r else wakeup (record r { m_stop_flag = true })

  unfoldable pub set_reactor_type : ReactorType → Reactor K → Reactor K
  set_reactor_type type r = record r { m_reactor_type = type }

module _ {K : Type 0} (epoll_ctl : K → EpollCtl → Option K) where
  -- What is done once `epoll_ctl` came back.
  unfoldable pub added : ℤ → Bool → Reactor K → Option K → Reactor K
  added fd is_add r none = r
  added fd true r (some k) = record r { m_epoll = k; m_fds = r.m_fds ++ fd ∷ [] }
  added fd false r (some k) = record r { m_epoll = k }

  unfoldable pub add_event_in_loop_thread : ℤ → Events → Reactor K → Reactor K
  add_event_in_loop_thread fd event r =
      if contains_fd fd r.m_fds
      then added fd false r (epoll_ctl r.m_epoll (ctl_mod fd event))
      else added fd true r (epoll_ctl r.m_epoll (ctl_add fd event))

  unfoldable pub deleted : ℤ → Reactor K → Option K → Reactor K
  deleted fd r none = record r { m_fds = erase_fd fd r.m_fds }
  deleted fd r (some k) = record r { m_epoll = k; m_fds = erase_fd fd r.m_fds }

  unfoldable pub del_event_in_loop_thread : ℤ → Reactor K → Reactor K
  del_event_in_loop_thread fd r =
      if contains_fd fd r.m_fds then deleted fd r (epoll_ctl r.m_epoll (ctl_del fd)) else r

  unfoldable pub pushed : ℤ → Reactor K → Option K → Reactor K
  pushed fd r none = record r { m_fds = r.m_fds ++ fd ∷ [] }
  pushed fd r (some k) = record r { m_epoll = k; m_fds = r.m_fds ++ fd ∷ [] }

  -- `addWakeupFd`, whatever `epoll_ctl` answers.
  unfoldable pub add_wakeup_fd : ℤ → Events → Reactor K → Reactor K
  add_wakeup_fd fd event r = pushed fd r (epoll_ctl r.m_epoll (ctl_add fd event))

  -- The first flag says whether the caller is the thread of the loop.
  unfoldable pub add_event : Bool → ℤ → Events → Bool → Reactor K → Reactor K
  add_event in_loop fd event is_wakeup r =
      if eq_ℤ fd (negsuc 0)
      then r
      else if in_loop
      then add_event_in_loop_thread fd event r
      else wake_if is_wakeup
          (record r { m_pending_add_fds = insert_pending fd event r.m_pending_add_fds })

  unfoldable pub del_event : Bool → ℤ → Bool → Reactor K → Reactor K
  del_event in_loop fd is_wakeup r =
      if eq_ℤ fd (negsuc 0)
      then r
      else if in_loop
      then del_event_in_loop_thread fd r
      else wake_if is_wakeup (record r { m_pending_del_fds = r.m_pending_del_fds ++ fd ∷ [] })

  -- `getTimer`; the timer of a new descriptor registers that for reading.
  unfoldable pub get_timer : Bool → ℤ → Reactor K → Reactor K
  get_timer in_loop fd r =
      if r.m_has_timer
      then r
      else record (add_event in_loop fd (record no_events { reads = true }) true r) {
        m_has_timer = true;
        m_timer_fd = fd;
      }

  unfoldable pub add_pending : List PendingAdd → Reactor K → Reactor K
  add_pending [] r = r
  add_pending (p ∷ ps) r = add_pending ps (add_event_in_loop_thread p.fd p.event r)

  unfoldable pub del_pending : List ℤ → Reactor K → Reactor K
  del_pending [] r = r
  del_pending (fd ∷ fds) r = del_pending fds (del_event_in_loop_thread fd r)

  -- The end of a round: what other threads asked for, the additions first.
  unfoldable pub flush : Reactor K → Reactor K
  flush r = del_pending r.m_pending_del_fds (
      add_pending r.m_pending_add_fds (record r { m_pending_add_fds = []; m_pending_del_fds = [] }))
