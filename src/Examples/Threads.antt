-- ===== src/Examples/Threads.antt =====
-- flconc/comm/thread_pool.cc on a pool of two threads and one task.
use flconc.Base.{◌≡◌, ◌+◌, refl, [], ◌∷◌, ◌++◌}
use flconc.Comm.ThreadPool.{
  inits, tests, looks, sleeps, runs, ThreadPool, new_thread_pool, start, add_task, signal,
  take_task, main_function, Reaches, starts, posts, steps,
}
use flconc.Comm.ThreadPool.Accounts.{occurrences, total, is_run, reaches-InOrder}

-- The first thread has found the queue empty, and sleeps.
abbrev asleep : ThreadPool
asleep = record (start (new_thread_pool 2)) { m_threads = sleeps ∷ inits ∷ [] }

asleep-Reaches : Reaches [] asleep
unfolding start new_thread_pool main_function take_task
asleep-Reaches =
    steps [] (inits ∷ []) looks sleeps
      (steps [] (inits ∷ []) tests looks
        (steps [] (inits ∷ []) inits tests (starts 2 refl) refl refl refl) refl refl refl)
      refl refl refl

-- A task is posted, and the thread woken.
abbrev posted : ThreadPool
posted = add_task 0 7 asleep

posted-Reaches : Reaches (7 ∷ []) posted
posted-Reaches = posts 0 7 asleep-Reaches refl refl

-- The thread runs it.
abbrev running : ThreadPool
running = record posted { m_threads = runs 7 ∷ inits ∷ []; m_tasks = []; taken = 7 ∷ [] }

running-Reaches : Reaches (7 ∷ []) running
unfolding start new_thread_pool add_task signal main_function take_task
running-Reaches = steps [] (inits ∷ []) looks (runs 7) posted-Reaches refl refl refl

reaches-InOrder_example :
    (running.taken ++ running.m_tasks ≡ 7 ∷ [])
    × (occurrences 7 running.taken
        ≡ total (is_run 7) running.m_threads + occurrences 7 running.finished)
reaches-InOrder_example = reaches-InOrder 7 (7 ∷ []) running running-Reaches
