-- ===== src/Coroutine/Mutex.antt =====
-- flconc/net/base/mutex.cc: `CoroutineMutex`. Coroutines are numbers; the flag says whether the caller
-- is the main coroutine of its thread.
use flconc.Base.{
  ℕ, ◌≡◌, refl, Bool, true, false, List, [], ◌∷◌, ◌++◌, Option, none, some, if◌then◌else◌, arith,
}

pub record CoroutineMutex : Type 0 where
  pub m_lock : Bool
  pub m_sleep_cors : List ℕ

-- How `lock` goes on: it returns at once, it yields until it is resumed, or it refuses.
pub data Outcome : Type 0 where
  acquired sleeps refused : Outcome

unfoldable pub lock : Bool → ℕ → CoroutineMutex → CoroutineMutex × Outcome
lock is_main cor m =
    if is_main
    then (m, refused)
    else if m.m_lock
    then (record m { m_sleep_cors = m.m_sleep_cors ++ cor ∷ [] }, sleeps)
    else (record m { m_lock = true }, acquired)

-- The front of the sleeping coroutines, and the mutex without it.
unfoldable pub wake_front : CoroutineMutex → List ℕ → CoroutineMutex × Option ℕ
wake_front m [] = (m, none)
wake_front m (cor ∷ cors) = (record m { m_sleep_cors = cors }, some cor)

-- The mutex, and the coroutine whose resumption is handed to the reactor. A resumed coroutine
-- returns from `lock` behind the `Yield`, and does not touch the mutex again.
unfoldable pub unlock : Bool → CoroutineMutex → CoroutineMutex × Option ℕ
unlock is_main m =
    if is_main
    then (m, none)
    else if m.m_lock
    then wake_front (record m { m_lock = false }) m.m_sleep_cors
    else (m, none)

-- While the mutex is held every other caller sleeps, behind those that sleep already, and a
-- release with nobody asleep frees it.
pub lock-held :
    (m : CoroutineMutex) (a b : ℕ)
    → m.m_lock ≡ false
    → m.m_sleep_cors ≡ []
    → let held = (lock false a m).0 in
      ((lock false a m).1 ≡ acquired)
      × ((lock false b held).1 ≡ sleeps)
      × ((lock false b held).0.m_sleep_cors ≡ b ∷ [])
      × ((unlock false held).0 ≡ m)
unfolding lock unlock wake_front
lock-held m a b l s = ground arith

-- With a coroutine asleep, `unlock` resumes it but leaves the mutex free: a third coroutine that
-- locks before the resumed one unlocks acquires the mutex as well.
pub unlock_shared :
    (m : CoroutineMutex) (cor : ℕ) (cors : List ℕ) (third : ℕ)
    → m.m_lock ≡ true
    → m.m_sleep_cors ≡ cor ∷ cors
    → ((unlock false m).1 ≡ some cor) × ((lock false third (unlock false m).0).1 ≡ acquired)
unfolding unlock lock wake_front
unlock_shared m cor cors third l s = rw (l, s) (refl, refl)

-- And where nobody does, the `unlock` of the resumed coroutine wakes no further one.
pub unlock_lost :
    (m : CoroutineMutex) (cor : ℕ) (cors : List ℕ)
    → m.m_lock ≡ true
    → m.m_sleep_cors ≡ cor ∷ cors
    → unlock false (unlock false m).0 ≡ ((unlock false m).0, none)
unfolding unlock wake_front
unlock_lost m cor cors l s = rw (l, s)
