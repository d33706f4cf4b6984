-- ===== src/Examples/Locks.antt =====
-- flconc/net/base/mutex.h, flconc/net/tcp/io_thread.cc and the idle connections of flconc/net/tcp, on small inputs.
use flconc.Base.{
  ◌≡◌, ◌≢◌, ◌⊎◌, ◌<◌, refl, false, ℕ, suc, List, [], ◌∷◌, ◌++◌, some, length, get_elem?, take, drop,
  arith, Returns, true,
}
use flconc.Base.Int.{pos}
use flconc.Net.ScopedLock.{
  writer, locks, unlocks, uses, destroy, new_scoped_lock, rounds, destroy-uses,
}
use flconc.Net.Reactor.{Reactor, add_coroutine, sub_reactor}
use flconc.Tcp.IoThread.Posts.{add_coroutine_to_random_thread, add_coroutine_to_random_thread-posts}
use flconc.Tcp.Connection.{new_connection}
use flconc.Tcp.Server.Idle.{Idle, reads, runs, ticks, handle_events}
use flconc.Tcp.Server.Idle.Active.{stays_fresh, handle_events-active}

-- A slot in the oldest of three buckets, and no task.
abbrev idle : Idle
idle = record {
  m_wheel = (4 ∷ []) ∷ [] ∷ (4 ∷ []) ∷ [];
  pending = [];
  connections = λ s. new_connection false 8;
}

abbrev reactor : Reactor Unit
reactor = record {
  m_epoll = tt;
  m_timer_fd = pos 0;
  m_stop_flag = false;
  m_is_looping = true;
  m_fds = [];
  m_pending_add_fds = [];
  m_pending_del_fds = [];
  m_pending_tasks = [];
  m_has_timer = false;
  m_reactor_type = sub_reactor;
  wakes = 0;
}

-- Three threads; the caller is the last of them, and is drawn.
abbrev reactors : List (Reactor Unit)
reactors = reactor ∷ reactor ∷ reactor ∷ []

destroy-uses_example :
    (n : ℕ) × (0 < n)
    × ((destroy (uses writer (unlocks ∷ unlocks ∷ locks ∷ []) (new_scoped_lock writer))).calls
        ≡ rounds writer n)
destroy-uses_example = destroy-uses writer (unlocks ∷ unlocks ∷ locks ∷ [])

handle_events-active_example :
    Returns
      (handle_events
        (ticks ∷ reads 4 ∷ ticks ∷ ticks ∷ ticks ∷ ticks ∷ runs ∷ ticks ∷ ticks ∷ [])
        idle)
      (λ i. i.connections 4 ≡ idle.connections 4)
unfolding stays_fresh
handle_events-active_example =
    handle_events-active 4 2
      (ticks ∷ reads 4 ∷ ticks ∷ ticks ∷ ticks ∷ ticks ∷ runs ∷ ticks ∷ ticks ∷ []) (some 2) idle
      refl refl refl

add_coroutine_to_random_thread-posts_example :
    Returns (add_coroutine_to_random_thread 5 7 false (some 2) reactors) (λ rs'.
      (i : ℕ) × (i < length reactors)
      × ((length reactors ≡ 1) ⊎ (i ≢ 2))
      × (r : Reactor Unit) × (get_elem? reactors i ≡ some r)
      × (rs' ≡ take i reactors ++ add_coroutine 7 true r ∷ drop (suc i) reactors))
add_coroutine_to_random_thread-posts_example =
    add_coroutine_to_random_thread-posts 5 7 2 reactors (omega arith)
