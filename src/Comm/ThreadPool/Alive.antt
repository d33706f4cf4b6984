-- ===== src/Comm/ThreadPool/Alive.antt =====
-- flconc/comm/thread_pool.cc: no wake-up is lost.
use flconc.Base.{ℕ, ◌<◌, ◌≡◌, true, List, [], ◌∷◌, ◌++◌, arith, ◌⊎◌, length, length-append}
use flconc.Comm.ThreadPool.{Worker, sleeps, ended, ThreadPool}
use flconc.Comm.ThreadPool.Accounts.{total}

abbrev pub is_ended : Worker → ℕ
is_ended ended = 1
is_ended _ = 0

-- Neither asleep nor at its end.
abbrev pub is_awake : Worker → ℕ
is_awake sleeps = 0
is_awake ended = 0
is_awake _ = 1

-- Unless the pool is stopped, no thread has ended, and where there are threads and tasks, one is awake.
abbrev Alive : ThreadPool → Type 0
Alive p =
    (p.m_is_stop ≡ true)
    ⊎ ((total is_ended p.m_threads ≡ 0)
        × ((p.m_tasks ≡ []) ⊎ (length p.m_threads ≡ 0) ⊎ (0 < total is_awake p.m_threads)))

-- A step: the flag stays; a thread ends only where the flag is set; and behind it the thread is awake, or
-- the flag is set, or the queue is empty.
abbrev Keeps : ThreadPool → Worker × ThreadPool → Type 0
Keeps p r =
    (r.1.m_is_stop ≡ p.m_is_stop)
    × ((p.m_is_stop ≡ true) ⊎ ((is_ended r.0 ≡ 0) × ((is_awake r.0 ≡ 1) ⊎ (r.1.m_tasks ≡ []))))

length-replaced :
    (before after : List Worker) (w w' : Worker)
    → length (before ++ w ∷ after) ≡ length (before ++ w' ∷ after)
length-replaced before after w w' =
    omega (arith, length-append before (w ∷ after), length-append before (w' ∷ after))
