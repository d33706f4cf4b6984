-- ===== src/Coroutine/Pool/Make.antt =====
-- flconc/coroutine/coroutine_pool.cc: the constructor of `CoroutinePool`, over the blocks of one `Memory`.
use flconc.Base.{
  ℕ, zero, suc, ◌+◌, ◌<◌, ◌≤◌, ◌≡◌, refl, sym, ap, ◌∙◌, List, [], ◌∷◌, some, get_elem?, arith,
  length, Returns, inl, inr,
}
use mathlib.Core.Option.{some-injective}
use flconc.Coroutine.Memory.{
  IsValid, used-replicate, get_block_count, Memory, new_memory, get_block, used, new_memory-IsValid,
  get_block-IsValid,
}
use flconc.Coroutine.Pool.{FreeCor, make_cors, new_pool}
use flconc.Coroutine.Pool.Lent.{IsIndexed}

block_free :
    (m : Memory)
    → IsValid m
    → used m.m_blocks < m.m_block_count
    → Returns (get_block m).0 (λ s. used (get_block m).1.m_blocks ≡ suc (used m.m_blocks))
block_free m v h = elim (get_block-IsValid m v).1 [
  | inl (full, e) ↦ absurd (omega (arith, full, h))
  | inr (i, l, free, e, more) ↦ (_, e, more)
]

-- The coroutine at place `k` has the index `i + k`.
abbrev From : ℕ → List FreeCor → Type 0
From i fs = (k : ℕ) (f : FreeCor) → get_elem? fs k ≡ some f → f.cor.m_index ≡ some (i + k)

From-cons :
    (i : ℕ) (f : FreeCor) (fs : List FreeCor)
    → f.cor.m_index ≡ some i
    → From (suc i) fs
    → From i (f ∷ fs)
From-cons i f fs h from zero g e =
    let same : i ≡ i + 0 = omega arith in
    ap (λ x. x.cor.m_index) (some-injective _ _ (sym e)) ∙ h ∙ ap some same
From-cons i f fs h from (suc k) g e =
    let same : suc i + k ≡ i + suc k = omega arith in from k g e ∙ ap some same

make_cors-From :
    (rounds i : ℕ) (m : Memory)
    → IsValid m
    → used m.m_blocks + rounds ≤ m.m_block_count
    → Returns (make_cors rounds i m) (λ r. (length r.0 ≡ rounds) × From i r.0)
unfolding make_cors
make_cors-From zero i m v h = (([], m), refl, (refl, λ k f e. cc))
make_cors-From (suc rounds) i m v h =
    let (s, e, more) = block_free m v (omega arith) in
    let (rest, e', q) =
      make_cors-From rounds (suc i) (get_block m).1 (get_block-IsValid m v).0
        (omega (arith, h, more, get_block_count m)) in
    rw (e, e') (_, refl, (ap suc q.0, From-cons i _ rest.0 refl q.1))

new_used :
    (start size count : ℕ)
    → used (new_memory start size count).m_blocks + count
      ≤ (new_memory start size count).m_block_count
unfolding new_memory
new_used start size count = omega (arith, used-replicate count)

-- With stacks of some size the constructor finds a block for every coroutine; the coroutine at place
-- `i` of `m_free_cors` has the index `i`, and there are `m_pool_size`.
pub new_pool-IsIndexed :
    (start pool_size stack_size : ℕ)
    → 0 < stack_size
    → Returns (new_pool start pool_size stack_size) (λ p. IsIndexed p × (p.m_pool_size ≡ pool_size))
unfolding new_pool
new_pool-IsIndexed start pool_size stack_size h =
    let (r, e, q) =
      make_cors-From pool_size 0 (new_memory start stack_size pool_size)
        (new_memory-IsValid start stack_size pool_size h) (new_used start stack_size pool_size) in
    rw e (
      _,
      refl,
      (
        record {
          sized = q.0;
          indexed = λ i f at. let same : 0 + i ≡ i = omega arith in q.1 i f at ∙ ap some same;
        },
        refl,
      ),
    )
