-- ===== src/Tcp/IoThread/Posts.antt =====
-- flconc/net/tcp/io_thread.cc: the tasks and coroutines that `IOThreadPool` hands to its threads. The pool is
-- the list of the reactors of its threads; the thread of the caller is its index, or none where
-- `t_cur_io_thread` is null. What `rand` returns, and the coroutine that the pool of coroutines
-- hands out, are arguments.
use flconc.Base.{
  take, drop, ◌++◌, ℕ, zero, suc, ◌+◌, ◌-◌, ◌%◌, ◌<◌, ◌≡◌, ◌≢◌, refl, ap, ◌⊎◌, inl, inr, Bool, true,
  false, List, [], ◌∷◌, map, Option, none, some, ◌==◌, ltb, leb, if◌then◌else◌, ◌>>=◌, length,
  get_elem?, arith, Bool-cases, Returns, ==_iff,
}
use flconc.Base.Int.{ℤ, pos, negsuc}
use flconc.Net.Reactor.{Reactor, add_task, add_coroutine}

-- The index of `addCoroutineToRandomThread`. `none` is a division by zero or a null pointer.
unfoldable pub moved_on : ℕ → ℕ → ℕ
moved_on i size = if i + 1 == size then i + 1 - 2 else i + 1

unfoldable pub avoid : Option ℕ → ℕ → ℕ → Option ℕ
avoid none i size = none
avoid (some current) i size = some (if i == current then moved_on i size else i)

unfoldable pub random_index : ℕ → Bool → Option ℕ → ℕ → Option ℕ
random_index draw self current zero = none
random_index draw self current (suc zero) = some 0
random_index draw self current (suc (suc n)) =
    let i : ℕ = draw % suc (suc n) in if self then some i else avoid current i (suc (suc n))

-- `m_io_threads[i]->getReactor()`, changed.
unfoldable pub at_thread {ℓ} : {A : Type ℓ} → (A → A) → ℕ → List A → List A
at_thread f i [] = []
at_thread f zero (r ∷ rs) = f r ∷ rs
at_thread f (suc i) (r ∷ rs) = r ∷ at_thread f i rs

module _ {K : Type 0} where
  unfoldable pub broadcast_task : ℕ → List (Reactor K) → List (Reactor K)
  broadcast_task cb rs = map (add_task (some cb) true) rs

  -- An index outside the pool does nothing.
  unfoldable pub add_task_by_index : ℤ → ℕ → List (Reactor K) → List (Reactor K)
  add_task_by_index (negsuc _) cb rs = rs
  add_task_by_index (pos i) cb rs =
      if ltb i (length rs) then at_thread (add_task (some cb) true) i rs else rs

  unfoldable pub add_coroutine_to_random_thread :
      ℕ → ℕ → Bool → Option ℕ → List (Reactor K) → Option (List (Reactor K))
  add_coroutine_to_random_thread draw cor self current rs = do
    i ← random_index draw self current (length rs)
    some (at_thread (add_coroutine cor true) i rs)

  -- The pointer that is returned is null for an index outside the pool.
  unfoldable pub add_coroutine_to_thread_by_index :
      ℤ → ℕ → List (Reactor K) → Option ℕ × List (Reactor K)
  add_coroutine_to_thread_by_index (negsuc _) cor rs = (none, rs)
  add_coroutine_to_thread_by_index (pos i) cor rs =
      if leb (length rs) i then (none, rs) else (some cor, at_thread (add_coroutine cor true) i rs)

  unfoldable pub add_coroutine_to_each_thread : List ℕ → List (Reactor K) → List (Reactor K)
  add_coroutine_to_each_thread (cor ∷ cors) (r ∷ rs) =
      add_coroutine cor true r ∷ add_coroutine_to_each_thread cors rs
  add_coroutine_to_each_thread _ rs = rs

-- The index is one of the pool, and not the caller's where there is another.
random_index-bounds :
    (draw current n : ℕ)
    → Returns
        (random_index draw false (some current) (suc n))
        (λ i. (i < suc n) × ((n ≡ 0) ⊎ (i ≢ current)))
unfolding random_index avoid moved_on
random_index-bounds draw current zero = (0, refl, (omega arith, inl refl))
random_index-bounds draw current (suc n) =
    let i : ℕ = draw % suc (suc n) in
    let small : i < suc (suc n) = omega arith in
    elim (Bool-cases (i == current)) [
      | inl e ↦ elim (Bool-cases (i + 1 == suc (suc n))) [
        | inl f ↦ (
          i + 1 - 2,
          simp (e, f),
          (
            ground arith,
            inr (λ h. omega (arith, (==_iff i current).0 e, (==_iff (i + 1) (suc (suc n))).0 f)),
          ),
        )
        | inr f ↦
            (i + 1, simp (e, f), (ground arith, inr (λ h. omega (arith, (==_iff i current).0 e))))
      ]
      | inr e ↦ (i, simp e, (small, inr (λ h. ground arith)))
    ]

-- One entry is changed, and the others stay.
at_thread-splits {ℓ} :
    {A : Type ℓ} (f : A → A) (i : ℕ) (rs : List A)
    → i < length rs
    → (r : A) × (get_elem? rs i ≡ some r) × (at_thread f i rs ≡ take i rs ++ f r ∷ drop (suc i) rs)
unfolding at_thread
at_thread-splits f i [] h = absurd (omega (arith, h))
at_thread-splits f zero (r ∷ rs) h = (r, refl, refl)
at_thread-splits f (suc i) (x ∷ rs) h =
    let (r, e, g) = at_thread-splits f i rs (omega (arith, h)) in (r, e, ap (λ t. x ∷ t) g)

-- On a pool of one thread or more, from a thread with a current thread and without `self`: whatever `rand`
-- returns, there is one thread of the pool, which is not the caller's unless the pool has one thread
-- only, to whose reactor the coroutine is added; all the other threads are as before.
pub add_coroutine_to_random_thread-posts :
    {K : Type 0} (draw cor current : ℕ) (rs : List (Reactor K))
    → 0 < length rs
    → Returns (add_coroutine_to_random_thread draw cor false (some current) rs) (λ rs'.
      (i : ℕ) × (i < length rs)
      × ((length rs ≡ 1) ⊎ (i ≢ current))
      × (r : Reactor K) × (get_elem? rs i ≡ some r)
      × (rs' ≡ take i rs ++ add_coroutine cor true r ∷ drop (suc i) rs))
unfolding add_coroutine_to_random_thread
add_coroutine_to_random_thread-posts draw cor current [] h = absurd (omega (arith, h))
add_coroutine_to_random_thread-posts draw cor current (x ∷ xs) h =
    let (i, e, (small, other)) = random_index-bounds draw current (length xs) in
    let (r, at, is) = at_thread-splits (add_coroutine cor true) i (x ∷ xs) small in
    (
      at_thread (add_coroutine cor true) i (x ∷ xs),
      simp e,
      (i, small, elim other [ inl z ↦ inl (ap suc z) | inr n ↦ inr n ], r, at, is),
    )
