-- ===== src/Comm/ThreadPool/Accounts.antt =====
-- flconc/comm/thread_pool.cc: no task is lost, run twice or overtaken, whatever the order of the steps.
use mathlib.Core.Option.{some-injective}
use flconc.Base.{
  Bool-cases, inl, inr, ℕ, zero, suc, ◌+◌, ◌≡◌, refl, sym, ap, ◌∙◌, Bool, true, false, List, [],
  ◌∷◌, ◌++◌, some, if◌then◌else◌, ◌==◌, arith, append_assoc, replicate, subst,
}
use flconc.Comm.ThreadPool.{
  Worker, inits, tests, looks, sleeps, runs, ended, ThreadPool, has_sleeper, signal,
  new_thread_pool, start, stop, add_task, take_task, main_function, Reaches, starts, posts, stops,
  wakes, steps,
}

-- How often a task stands in a list.
unfoldable pub occurrences : ℕ → List ℕ → ℕ
occurrences t [] = 0
occurrences t (x ∷ xs) = (if x == t then 1 else 0) + occurrences t xs

occurrences-append :
    (t : ℕ) (xs ys : List ℕ) → occurrences t (xs ++ ys) ≡ occurrences t xs + occurrences t ys
unfolding occurrences
occurrences-append t [] ys = omega arith
occurrences-append t (x ∷ xs) ys = omega (arith, occurrences-append t xs ys)

-- A number for each thread, summed up.
unfoldable pub total : (Worker → ℕ) → List Worker → ℕ
total f [] = 0
total f (w ∷ ws) = f w + total f ws

pub total-append :
    (f : Worker → ℕ) (vs ws : List Worker) → total f (vs ++ ws) ≡ total f vs + total f ws
unfolding total
total-append f [] ws = omega arith
total-append f (v ∷ vs) ws = omega (arith, total-append f vs ws)

-- The sum when one thread moves on.
pub total-at :
    (f : Worker → ℕ) (before after : List Worker) (w w' : Worker)
    → total f (before ++ w ∷ after) + f w' ≡ total f (before ++ w' ∷ after) + f w
unfolding total
total-at f before after w w' =
    omega (arith, total-append f before (w ∷ after), total-append f before (w' ∷ after))

pub total-replicate : (f : Worker → ℕ) (w : Worker) (n : ℕ) → f w ≡ 0 → total f (replicate n w) ≡ 0
unfolding total
total-replicate f w zero e = refl
total-replicate f w (suc n) e = omega (arith, e, total-replicate f w n e)

-- Whether the thread runs the task.
abbrev pub is_run : ℕ → Worker → ℕ
is_run t (runs x) = if x == t then 1 else 0
is_run t _ = 0

-- What is taken and what waits is what was posted, in order; and a task is taken as often as it is being
-- run or has come back.
abbrev pub InOrder : ℕ → List ℕ → ThreadPool → Type 0
InOrder t cbs p =
    (p.taken ++ p.m_tasks ≡ cbs)
    × (occurrences t p.taken ≡ total (is_run t) p.m_threads + occurrences t p.finished)

-- The accounts behind a step of one thread, which leaves it where `r` says.
module _ (t : ℕ) (cbs : List ℕ) (before after : List Worker) where
  abbrev Behind : Worker × ThreadPool → Type 0
  Behind r = InOrder t cbs (record r.1 { m_threads = before ++ r.0 ∷ after })

  replaced :
      (w w' : Worker) (p : ThreadPool)
      → p.m_threads ≡ before ++ w ∷ after
      → total (is_run t) p.m_threads + is_run t w'
        ≡ total (is_run t) (before ++ w' ∷ after) + is_run t w
  replaced w w' p e = omega (arith, ap (total (is_run t)) e, total-at (is_run t) before after w w')

  is_run-tested : (b : Bool) → is_run t (if b then ended else looks) ≡ 0
  is_run-tested true = refl
  is_run-tested false = refl

  take_task-InOrder :
      (ts : List ℕ) (p : ThreadPool)
      → p.m_threads ≡ before ++ looks ∷ after
      → p.m_tasks ≡ ts
      → InOrder t cbs p
      → Behind (take_task p ts)
  unfolding take_task occurrences
  take_task-InOrder [] p e f (order, sum) = (order, omega (arith, sum, replaced looks sleeps p e))
  take_task-InOrder (x ∷ ts) p e f (order, sum) = (
    append_assoc p.taken (x ∷ []) ts ∙ ap (λ l. p.taken ++ l) (sym f) ∙ order,
    omega (arith, occurrences-append t p.taken (x ∷ []), sum, replaced looks (runs x) p e),
  )

  main_function-InOrder :
      (w : Worker) (p : ThreadPool) (r : Worker × ThreadPool)
      → p.m_threads ≡ before ++ w ∷ after
      → main_function w p ≡ some r
      → InOrder t cbs p
      → Behind r
  unfolding main_function occurrences
  main_function-InOrder inits p r e h (order, sum) = elim (Bool-cases (has_sleeper p.m_threads)) [
    | inl s ↦ absurd (cc (rw s at h))
    | inr s ↦
        subst Behind (some-injective _ _ (rw s at h))
          (order, omega (arith, sum, replaced inits tests p e))
  ]
  main_function-InOrder tests p r e h (order, sum) =
      let w' : Worker = if p.m_is_stop then ended else looks in
      subst Behind (some-injective _ _ h)
        (order, omega (arith, sum, replaced tests w' p e, is_run-tested p.m_is_stop))
  main_function-InOrder looks p r e h i =
      subst Behind (some-injective _ _ h) (take_task-InOrder p.m_tasks p e refl i)
  main_function-InOrder sleeps p r e h i = absurd (cc h)
  main_function-InOrder (runs x) p r e h (order, sum) = subst Behind (some-injective _ _ h) (
    order,
    omega (arith, occurrences-append t p.finished (x ∷ []), sum, replaced (runs x) tests p e),
  )
  main_function-InOrder ended p r e h i = absurd (cc h)

-- A signal leaves the tasks that run.
total-signal : (t n : ℕ) (ws : List Worker) → total (is_run t) (signal ws n) ≡ total (is_run t) ws
unfolding total signal
total-signal t n [] = refl
total-signal t zero (sleeps ∷ ws) = omega arith
total-signal t (suc n) (sleeps ∷ ws) = elim (Bool-cases (has_sleeper ws)) [
  | inl s ↦ simp s (omega (arith, total-signal t n ws))
  | inr s ↦ simp s (omega arith)
]
total-signal t n (inits ∷ ws) = omega (arith, total-signal t n ws)
total-signal t n (tests ∷ ws) = omega (arith, total-signal t n ws)
total-signal t n (looks ∷ ws) = omega (arith, total-signal t n ws)
total-signal t n (runs x ∷ ws) = omega (arith, total-signal t n ws)
total-signal t n (ended ∷ ws) = omega (arith, total-signal t n ws)

-- In whatever order threads, posts and `stop` follow each other: the tasks taken off the queue and those
-- still in it are the tasks that were posted, in the order they were posted; and each task was taken
-- as often as it is being run or has come back.
pub reaches-InOrder : (t : ℕ) (cbs : List ℕ) (p : ThreadPool) → Reaches cbs p → InOrder t cbs p
unfolding start stop add_task new_thread_pool occurrences
reaches-InOrder t cbs p (starts size e) =
    subst (InOrder t cbs) (sym e) (refl, omega (arith, total-replicate (is_run t) inits size refl))
reaches-InOrder t cbs p (posts {cbs = ds} {p = q} choice cb s e g) =
    let (order, sum) = reaches-InOrder t ds q s in
    subst (InOrder t cbs) (sym g) (
      sym (append_assoc q.taken q.m_tasks (cb ∷ [])) ∙ ap (λ l. l ++ cb ∷ []) order ∙ sym e,
      omega (arith, sum, total-signal t choice q.m_threads),
    )
reaches-InOrder t cbs p (stops {p = q} s e) =
    subst (InOrder t cbs) (sym e) (reaches-InOrder t cbs q s)
reaches-InOrder t cbs p (wakes {p = q} before after s e g) =
    let (order, sum) = reaches-InOrder t cbs q s in
    subst (InOrder t cbs) (sym g)
      (order, omega (arith, sum, replaced t cbs before after sleeps looks q e))
reaches-InOrder t cbs p (steps {p = q} {q = q'} before after w w' s e h g) =
    subst (InOrder t cbs) (sym g)
      (main_function-InOrder t cbs before after w q (w', q') e h (reaches-InOrder t cbs q s))
