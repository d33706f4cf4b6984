-- ===== src/Examples/Pool.antt =====
-- flconc/coroutine/coroutine_pool.cc on a pool of two coroutines, the first one handed out.
use flconc.Base.{
  ℕ, zero, suc, ◌≡◌, refl, ap, sym, Bool, false, true, List, [], ◌∷◌, some, arith, Returns,
  get_elem?,
}
use mathlib.Core.Option.{some-injective}
use flconc.Coroutine.Memory.{new_memory}
use flconc.Coroutine.Pool.{Handle, FreeCor, CoroutinePool, first_idle}
use flconc.Coroutine.Pool.Lent.{IsIndexed, AllOther, gets, gets-once}

abbrev free_cor : ℕ → Bool → FreeCor
free_cor i lent = record {
  cor = record { m_index = some i; m_stack_sp = 4096 };
  is_in_cofunc = false;
  is_lent = lent;
}

abbrev cors : List FreeCor
cors = free_cor 0 true ∷ free_cor 1 false ∷ []

abbrev pool : CoroutinePool
pool = record {
  m_pool_size = 2;
  m_stack_size = 128;
  m_free_cors = cors;
  m_memory_pool = new_memory 4096 128 2 ∷ [];
}

cors-indexed : (i : ℕ) (f : FreeCor) → get_elem? cors i ≡ some f → f.cor.m_index ≡ some i
cors-indexed zero f e = ap (λ x. x.cor.m_index) (some-injective _ _ (sym e))
cors-indexed (suc zero) f e = ap (λ x. x.cor.m_index) (some-injective _ _ (sym e))
cors-indexed (suc (suc i)) f e = cc

pool-IsIndexed : IsIndexed pool
pool-IsIndexed = record { sized = refl; indexed = cors-indexed }

second_idle : first_idle cors ≡ some 1
unfolding first_idle
second_idle = refl

gets-once_example :
    (h : Handle) × (h.m_index ≡ some 1)
    × Returns
        (gets (8192 ∷ 16384 ∷ 32768 ∷ []) pool)
        (λ r. (hs : List Handle) × (r.0 ≡ h ∷ hs) × AllOther 1 hs)
gets-once_example =
    gets-once 8192 1 (16384 ∷ 32768 ∷ []) pool pool-IsIndexed (omega arith) second_idle
