-- ===== src/Tcp/IoThread.antt =====
-- flconc/net/tcp/io_thread.cc: `IOThreadPool::getIOThread` deals the threads out in turn.
pub mod Posts
use native.Mathlib.Nat.{mod-add-mod, mod-eq_of_lt}
use flconc.Base.{
  sym, ◌∙◌, ℕ, zero, suc, ◌+◌, ◌%◌, ◌<◌, ◌≡◌, refl, List, [], ◌∷◌, Option, none, some, ◌==◌,
  if◌then◌else◌, ◌>>=◌, arith, ltb, lt→ltb, Bool, false, ap, inl, inr, ◌⊎◌, Bool-cases, ==_iff,
  ==_refl,
}
use flconc.Base.Int.{ℤ, pos, negsuc}

-- A thread is its index in `m_io_threads`, which holds `m_size` of them.
pub record IoThreadPool : Type 0 where
  pub m_size : ℕ
  pub m_index : ℤ

unfoldable pub new_pool : ℕ → IoThreadPool
new_pool size = record { m_size = size; m_index = negsuc 0 }

-- `m_index == m_size || m_index == -1`
abbrev pub wraps : IoThreadPool → ℤ → Bool
wraps p (pos i) = i == p.m_size
wraps p (negsuc i) = i == 0

-- `m_io_threads[m_index++]`; an index outside the vector is a fault.
unfoldable pub take_thread : IoThreadPool → ℤ → Option (ℕ × IoThreadPool)
take_thread p (negsuc _) = none
take_thread p (pos i) =
    if ltb i p.m_size then some (i, record p { m_index = pos (i + 1) }) else none

unfoldable pub get_io_thread : IoThreadPool → Option (ℕ × IoThreadPool)
unfolding take_thread
get_io_thread p = take_thread p (if wraps p p.m_index then pos 0 else p.m_index)

-- The threads that `k` calls return.
unfoldable pub deal : ℕ → IoThreadPool → Option (List ℕ)
deal zero p = some []
deal (suc k) p = do r ← get_io_thread p; more ← deal k r.1; some (r.0 ∷ more)

-- `k` threads from index `i` on, in turn among `n`.
unfoldable pub in_turn : ℕ → ℕ → ℕ → List ℕ
in_turn n i zero = []
in_turn n i (suc k) = i % n ∷ in_turn n (i + 1) k

-- The pool stands at thread `i` of the turn.
abbrev At : IoThreadPool → ℕ → Type 0
At p i =
    ((p.m_index ≡ pos p.m_size) × (i % p.m_size ≡ 0))
    ⊎ ((p.m_index ≡ negsuc 0) × (i % p.m_size ≡ 0))
    ⊎ (p.m_index ≡ pos (i % p.m_size))

get_io_thread-At :
    (p : IoThreadPool) (i : ℕ)
    → 0 < p.m_size
    → At p i
    → get_io_thread p ≡ some (i % p.m_size, record p { m_index = pos (i % p.m_size + 1) })
unfolding get_io_thread
get_io_thread-At p i h (inl (e, z)) = rw (e, ==_refl p.m_size, lt→ltb 0 p.m_size h, z)
get_io_thread-At p i h (inr (inl (e, z))) = rw (e, lt→ltb 0 p.m_size h, z)
get_io_thread-At p i h (inr (inr e)) =
    let small : i % p.m_size < p.m_size = omega arith in
    let other : (i % p.m_size == p.m_size) ≡ false = ground arith in
    rw (e, other, lt→ltb (i % p.m_size) p.m_size small)

around : (n i : ℕ) → i % n + 1 ≡ n → (i + 1) % n ≡ 0
around n i e =
    let self : n % n ≡ 0 = grind arith in sym (mod-add-mod i n 1) ∙ ap (λ t. t % n) e ∙ self

within : (n i : ℕ) → i % n + 1 < n → i % n + 1 ≡ (i + 1) % n
within n i h = sym (mod-eq_of_lt h) ∙ mod-add-mod i n 1

next-At : (n i : ℕ) → 0 < n → At (record { m_size = n; m_index = pos (i % n + 1) }) (i + 1)
next-At n i h = elim (Bool-cases (i % n + 1 == n)) [
  | inl e ↦ inl (ap pos ((==_iff _ _).0 e), around n i ((==_iff _ _).0 e))
  | inr e ↦ inr (inr (ap pos (within n i (ground arith))))
]

deal-in_turn :
    (k i : ℕ) (p : IoThreadPool) → 0 < p.m_size → At p i → deal k p ≡ some (in_turn p.m_size i k)
unfolding deal in_turn
deal-in_turn zero i p h a = refl
deal-in_turn (suc k) i p h a = rw (
  get_io_thread-At p i h a,
  deal-in_turn k (i + 1) (record p { m_index = pos (i % p.m_size + 1) }) h (next-At p.m_size i h),
)

-- The calls of `getIOThread` on a new pool of one thread or more return the threads in turn, from
-- the first on, and never leave the vector.
pub deal-new_pool : (n k : ℕ) → 0 < n → deal k (new_pool n) ≡ some (in_turn n 0 k)
unfolding new_pool
deal-new_pool n k h =
    let start : 0 % n ≡ 0 = grind arith in
    deal-in_turn k 0 (record { m_size = n; m_index = negsuc 0 }) h (inr (inl (refl, start)))
