-- ===== src/Net/FdEvent.antt =====
-- flconc/net/base/fd_event.h and fd_event.cc: `FdEvent` and `FdEventContainer`. Callbacks, reactors and
-- coroutines are numbers, with `none` for null. A method that calls the reactor returns the call.
pub mod Listen
pub mod Container
use flconc.Base.{
  ℕ, zero, suc, ◌+◌, ◌-◌, ◌*◌, ◌/◌, Bool, true, false, List, [], ◌∷◌, ◌++◌, Option, none, some, ltb,
  if◌then◌else◌, ◌>>=◌, length, get_elem?,
}
use flconc.Base.Int.{ℤ, pos, negsuc}

pub data IoEvent : Type 0 where
  read write et_model : IoEvent

-- The bits of `m_listen_events`; no other bit is ever set.
pub record Events : Type 0 where
  pub reads : Bool
  pub writes : Bool
  pub edges : Bool

abbrev pub no_events : Events
no_events = record { reads = false; writes = false; edges = false }

-- `m_listen_events & event`
unfoldable pub has : Events → IoEvent → Bool
has es read = es.reads
has es write = es.writes
has es et_model = es.edges

-- `m_listen_events |= event`, and `m_listen_events &= ~event`
unfoldable pub put_event : Bool → Events → IoEvent → Events
put_event b es read = record es { reads = b }
put_event b es write = record es { writes = b }
put_event b es et_model = record es { edges = b }

pub record FdEvent : Type 0 where
  pub m_fd : ℤ
  pub m_read_callback : Option ℕ
  pub m_write_callback : Option ℕ
  pub m_listen_events : Events
  pub m_reactor : Option ℕ
  pub m_coroutine : Option ℕ

-- `FdEvent(int)`
unfoldable pub new_fd_event : ℤ → FdEvent
new_fd_event fd = record {
  m_fd = fd;
  m_read_callback = none;
  m_write_callback = none;
  m_listen_events = no_events;
  m_reactor = none;
  m_coroutine = none;
}

-- `FdEvent(Reactor *, int)`
unfoldable pub new_fd_event_of : Option ℕ → ℤ → FdEvent
new_fd_event_of reactor fd = record (new_fd_event fd) { m_reactor = reactor }

unfoldable pub set_fd : ℤ → FdEvent → FdEvent
set_fd fd e = record e { m_fd = fd }

unfoldable pub set_reactor : Option ℕ → FdEvent → FdEvent
set_reactor r e = record e { m_reactor = r }

unfoldable pub set_coroutine : Option ℕ → FdEvent → FdEvent
set_coroutine cor e = record e { m_coroutine = cor }

unfoldable pub clear_coroutine : FdEvent → FdEvent
clear_coroutine e = record e { m_coroutine = none }

-- The callback that runs. An empty one throws, which is `none`; a wrong flag runs nothing.
unfoldable pub handle_event : IoEvent → FdEvent → Option (List ℕ)
handle_event read e = do cb ← e.m_read_callback; some (cb ∷ [])
handle_event write e = do cb ← e.m_write_callback; some (cb ∷ [])
handle_event et_model e = some []

unfoldable pub set_call_back : IoEvent → Option ℕ → FdEvent → FdEvent
set_call_back read cb e = record e { m_read_callback = cb }
set_call_back write cb e = record e { m_write_callback = cb }
set_call_back et_model cb e = e

unfoldable pub get_call_back : IoEvent → FdEvent → Option ℕ
get_call_back read e = e.m_read_callback
get_call_back write e = e.m_write_callback
get_call_back et_model e = none

-- A call of the reactor's `addEvent` or `delEvent`, with the reactor it is made on.
pub data ReactorCall : Type 0 where
  add_event : ℕ → ℤ → Events → ReactorCall
  del_event : ℕ → ℤ → ReactorCall

-- `if (!m_reactor) m_reactor = Reactor::GetReactor()`, which is the reactor of the thread.
unfoldable pub reactor_or : ℕ → Option ℕ → ℕ
reactor_or current none = current
reactor_or current (some r) = r

unfoldable pub update_to_reactor : ℕ → FdEvent → FdEvent × List ReactorCall
update_to_reactor current e =
    let r = reactor_or current e.m_reactor in
    (record e { m_reactor = some r }, add_event r e.m_fd e.m_listen_events ∷ [])

unfoldable pub add_listen_events : ℕ → IoEvent → FdEvent → FdEvent × List ReactorCall
add_listen_events current event e =
    if has e.m_listen_events event
    then (e, [])
    else update_to_reactor current
        (record e { m_listen_events = put_event true e.m_listen_events event })

unfoldable pub del_listen_events : ℕ → IoEvent → FdEvent → FdEvent × List ReactorCall
del_listen_events current event e =
    if has e.m_listen_events event
    then update_to_reactor current
        (record e { m_listen_events = put_event false e.m_listen_events event })
    else (e, [])

unfoldable pub unregister_from_reactor : ℕ → FdEvent → FdEvent × List ReactorCall
unregister_from_reactor current e =
    let r = reactor_or current e.m_reactor in
    (
      record e {
        m_reactor = some r;
        m_listen_events = no_events;
        m_read_callback = none;
        m_write_callback = none;
      },
      del_event r e.m_fd ∷ [],
    )

-- The events from `i` on, so many of them.
unfoldable pub push_fds : ℕ → ℕ → List FdEvent
push_fds zero i = []
push_fds (suc rounds) i = new_fd_event (pos i) ∷ push_fds rounds (suc i)

-- `FdEventContainer(int)`: the vector `m_fds`.
unfoldable pub new_container : ℕ → List FdEvent
new_container size = push_fds size 0

-- The vector after `getFdEvent` has grown it to `(int) (fd * 1.5)`.
unfoldable pub grow_fds : ℕ → List FdEvent → List FdEvent
grow_fds fd fds = fds ++ push_fds (fd * 3 / 2 - length fds) (length fds)

-- The event, and the container; an index outside the vector is a fault.
unfoldable pub get_fd_event : ℤ → List FdEvent → Option (FdEvent × List FdEvent)
get_fd_event (negsuc _) fds = none
get_fd_event (pos fd) fds =
    let grown = if ltb fd (length fds) then fds else grow_fds fd fds in
    do e ← get_elem? grown fd; some (e, grown)
