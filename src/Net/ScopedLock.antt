-- ===== src/Net/ScopedLock.antt =====
-- flconc/net/base/mutex.h: `ScopedLockImpl`, `ReadScopedLockImpl` and `WriteScopedLockImpl`, which differ in the
-- call that locks. A lock is the list of the calls that it makes on its mutex.
use flconc.Base.{
  ℕ, zero, suc, ◌<◌, ◌≡◌, refl, ap, ◌∙◌, Bool, true, false, List, [], ◌∷◌, ◌++◌, if◌then◌else◌,
  append_assoc, arith,
}

pub data MutexCall : Type 0 where
  mutex_lock mutex_rdlock mutex_wrlock mutex_unlock : MutexCall

pub data LockKind : Type 0 where
  exclusive reader writer : LockKind

abbrev pub locking_call : LockKind → MutexCall
locking_call exclusive = mutex_lock
locking_call reader = mutex_rdlock
locking_call writer = mutex_wrlock

pub record ScopedLock : Type 0 where
  pub m_locked : Bool
  pub calls : List MutexCall

unfoldable pub new_scoped_lock : LockKind → ScopedLock
new_scoped_lock kind = record { m_locked = true; calls = locking_call kind ∷ [] }

unfoldable pub lock : LockKind → ScopedLock → ScopedLock
lock kind l =
    if l.m_locked then l else record { m_locked = true; calls = l.calls ++ locking_call kind ∷ [] }

unfoldable pub unlock : ScopedLock → ScopedLock
unlock l =
    if l.m_locked then record { m_locked = false; calls = l.calls ++ mutex_unlock ∷ [] } else l

-- The destructor.
unfoldable pub destroy : ScopedLock → ScopedLock
destroy l = unlock l

pub data Use : Type 0 where
  locks unlocks : Use

unfoldable pub uses : LockKind → List Use → ScopedLock → ScopedLock
uses kind [] l = l
uses kind (locks ∷ us) l = uses kind us (lock kind l)
uses kind (unlocks ∷ us) l = uses kind us (unlock l)

-- So many times locked and unlocked again.
unfoldable pub rounds : LockKind → ℕ → List MutexCall
rounds kind zero = []
rounds kind (suc n) = locking_call kind ∷ mutex_unlock ∷ rounds kind n

rounds-next :
    (kind : LockKind) (n : ℕ)
    → rounds kind n ++ (locking_call kind ∷ mutex_unlock ∷ []) ≡ rounds kind (suc n)
unfolding rounds
rounds-next kind zero = refl
rounds-next kind (suc n) = ap (λ t. locking_call kind ∷ mutex_unlock ∷ t) (rounds-next kind n)

-- Behind whole rounds, with the mutex locked once more exactly when the flag says so.
Alternates : LockKind → Bool → List MutexCall → Type 0
Alternates kind true calls = (n : ℕ) × (calls ≡ rounds kind n ++ locking_call kind ∷ [])
Alternates kind false calls = (n : ℕ) × (0 < n) × (calls ≡ rounds kind n)

unlock-Alternates :
    (kind : LockKind) (b : Bool) (calls : List MutexCall)
    → Alternates kind b calls
    → Alternates kind false (unlock (record { m_locked = b; calls = calls })).calls
unfolding Alternates unlock
unlock-Alternates kind true calls (n, e) = (
  suc n,
  omega arith,
  ap (λ t. t ++ mutex_unlock ∷ []) e
      ∙ append_assoc (rounds kind n) (locking_call kind ∷ []) (mutex_unlock ∷ [])
      ∙ rounds-next kind n,
)
unlock-Alternates kind false calls a = a

uses-Alternates :
    (kind : LockKind) (us : List Use) (b : Bool) (calls : List MutexCall)
    → Alternates kind b calls
    → Alternates kind false (destroy (uses kind us (record { m_locked = b; calls = calls }))).calls
unfolding uses lock destroy unlock
uses-Alternates kind [] b calls a = unlock-Alternates kind b calls a
uses-Alternates kind (locks ∷ us) true calls a = uses-Alternates kind us true calls a
uses-Alternates kind (locks ∷ us) false calls a =
    uses-Alternates kind us true _
      (unfold Alternates in (a.0, ap (λ t. t ++ locking_call kind ∷ []) a.2))
uses-Alternates kind (unlocks ∷ us) true calls a =
    uses-Alternates kind us false _ (unlock-Alternates kind true calls a)
uses-Alternates kind (unlocks ∷ us) false calls a = uses-Alternates kind us false calls a

-- However a scoped lock is locked and unlocked before its destructor runs: it calls its mutex in turn, to
-- lock and to unlock, begins with the lock of its kind and ends with an unlock, so that nothing is
-- unlocked twice, locked twice, or left locked.
pub destroy-uses :
    (kind : LockKind) (us : List Use)
    → (n : ℕ) × (0 < n) × ((destroy (uses kind us (new_scoped_lock kind))).calls ≡ rounds kind n)
unfolding new_scoped_lock Alternates rounds
destroy-uses kind us = uses-Alternates kind us true (locking_call kind ∷ []) (0, refl)
