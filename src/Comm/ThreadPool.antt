-- ===== src/Comm/ThreadPool.antt =====
-- flconc/comm/thread_pool.cc. Tasks are numbers. A thread takes its steps between those of the others
-- and of the callers; what it does under the mutex is one step, and so are the push of `addTask` and its signal. Which of the sleeping threads a signal
-- wakes is an argument, and a thread may also wake up without a signal.
pub mod Accounts
pub mod Alive
use flconc.Base.{
  ℕ, zero, suc, ◌≡◌, Bool, true, false, List, [], ◌∷◌, ◌++◌, Option, none, some, if◌then◌else◌,
  replicate,
}

-- Where a thread of `MainFunction` stands: at its start, before the test of `m_is_stop`, behind it and about
-- to lock or awake again, in `pthread_cond_wait`, in a task, or at its end.
pub data Worker : Type 0 where
  inits : Worker
  tests : Worker
  looks : Worker
  sleeps : Worker
  runs : ℕ → Worker
  ended : Worker

-- The last two fields keep account of the tasks that were taken off the queue, and of those that came
-- back.
pub record ThreadPool : Type 0 where
  pub m_size : ℕ
  pub m_threads : List Worker
  pub m_tasks : List ℕ
  pub m_is_stop : Bool
  pub taken : List ℕ
  pub finished : List ℕ

-- Before `start` no thread runs.
unfoldable pub new_thread_pool : ℕ → ThreadPool
new_thread_pool size = record {
  m_size = size;
  m_threads = [];
  m_tasks = [];
  m_is_stop = false;
  taken = [];
  finished = [];
}

unfoldable pub start : ThreadPool → ThreadPool
start pool = record pool { m_threads = replicate pool.m_size inits }

unfoldable pub stop : ThreadPool → ThreadPool
stop pool = record pool { m_is_stop = true }

abbrev pub has_sleeper : List Worker → Bool
has_sleeper [] = false
has_sleeper (sleeps ∷ ws) = true
has_sleeper (_ ∷ ws) = has_sleeper ws

-- `pthread_cond_signal`: one thread that sleeps is woken, if there is one. So many are passed over, where
-- there are others behind them.
unfoldable pub signal : List Worker → ℕ → List Worker
signal [] n = []
signal (sleeps ∷ ws) zero = looks ∷ ws
signal (sleeps ∷ ws) (suc n) =
    let rest = signal ws n in if has_sleeper ws then sleeps ∷ rest else looks ∷ ws
signal (inits ∷ ws) n = inits ∷ signal ws n
signal (tests ∷ ws) n = tests ∷ signal ws n
signal (looks ∷ ws) n = looks ∷ signal ws n
signal (runs cb ∷ ws) n = runs cb ∷ signal ws n
signal (ended ∷ ws) n = ended ∷ signal ws n

-- `addTask`, with the choice of the thread that is woken.
unfoldable pub add_task : ℕ → ℕ → ThreadPool → ThreadPool
add_task choice cb pool = record pool {
  m_tasks = pool.m_tasks ++ cb ∷ [];
  m_threads = signal pool.m_threads choice;
}

-- With the mutex: at an empty queue the thread goes to sleep.
unfoldable pub take_task : ThreadPool → List ℕ → Worker × ThreadPool
take_task pool [] = (sleeps, pool)
take_task pool (cb ∷ cbs) = (runs cb, record pool { m_tasks = cbs; taken = pool.taken ++ cb ∷ [] })

-- The next step of a thread, or none where it sleeps or has ended. Every thread initialises the condition at
-- its start, which is undefined while another one sleeps on it: none as well.
unfoldable pub main_function : Worker → ThreadPool → Option (Worker × ThreadPool)
main_function inits pool = if has_sleeper pool.m_threads then none else some (tests, pool)
main_function tests pool = some (if pool.m_is_stop then ended else looks, pool)
main_function looks pool = some (take_task pool pool.m_tasks)
main_function sleeps pool = none
main_function (runs cb) pool = some (tests, record pool { finished = pool.finished ++ cb ∷ [] })
main_function ended pool = none

-- The pools that can be reached, in any order of the steps, when these tasks were posted.
pub data Reaches : List ℕ → ThreadPool → Type 0 where
  starts : {p : ThreadPool} (size : ℕ) → p ≡ start (new_thread_pool size) → Reaches [] p
  posts :
      {cbs cbs' : List ℕ} {p p' : ThreadPool} (choice cb : ℕ)
      → Reaches cbs p
      → cbs' ≡ cbs ++ cb ∷ []
      → p' ≡ add_task choice cb p
      → Reaches cbs' p'
  stops : {cbs : List ℕ} {p p' : ThreadPool} → Reaches cbs p → p' ≡ stop p → Reaches cbs p'
  wakes :
      {cbs : List ℕ} {p p' : ThreadPool} (before after : List Worker)
      → Reaches cbs p
      → p.m_threads ≡ before ++ sleeps ∷ after
      → p' ≡ record p { m_threads = before ++ looks ∷ after }
      → Reaches cbs p'
  steps :
      {cbs : List ℕ} {p q p' : ThreadPool} (before after : List Worker) (w w' : Worker)
      → Reaches cbs p
      → p.m_threads ≡ before ++ w ∷ after
      → main_function w p ≡ some (w', q)
      → p' ≡ record q { m_threads = before ++ w' ∷ after }
      → Reaches cbs p'
