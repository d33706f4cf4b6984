-- ===== src/Coroutine/Pool.antt =====
-- flconc/coroutine/coroutine_pool.cc: `CoroutinePool`. A coroutine that the pool hands out is its index,
-- with `none` for -1, and the address of its stack. `none` as a result is the failed assertion on
-- a null stack. Each call gets the address at which a new `Memory` would be allocated.
pub mod Lent
pub mod Make
use flconc.Base.{
  ℕ, zero, suc, ◌≡◌, Bool, true, false, not, ◌&&◌, List, [], ◌∷◌, ◌++◌, Option, none, some, ltb,
  if◌then◌else◌, ◌>>=◌, get_elem?, set,
}
use flconc.Coroutine.Memory.{Memory, new_memory, get_block, has_block, back_block}

pub record Handle : Type 0 where
  pub m_index : Option ℕ
  pub m_stack_sp : ℕ

-- An entry of `m_free_cors`: the coroutine, its `m_is_in_cofunc`, and whether it is handed out.
pub record FreeCor : Type 0 where
  pub cor : Handle
  pub is_in_cofunc : Bool
  pub is_lent : Bool

pub record CoroutinePool : Type 0 where
  pub m_pool_size : ℕ
  pub m_stack_size : ℕ
  pub m_free_cors : List FreeCor
  pub m_memory_pool : List Memory

-- The loop of the constructor, with so many rounds left.
unfoldable pub make_cors : ℕ → ℕ → Memory → Option (List FreeCor × Memory)
make_cors zero i m = some ([], m)
make_cors (suc rounds) i m = do
  stack ← (get_block m).0
  rest ← make_cors rounds (suc i) (get_block m).1
  some (
    record {
      cor = record { m_index = some i; m_stack_sp = stack };
      is_in_cofunc = false;
      is_lent = false;
    }
        ∷ rest.0,
    rest.1,
  )

unfoldable pub new_pool : ℕ → ℕ → ℕ → Option CoroutinePool
new_pool start pool_size stack_size = do
  made ← make_cors pool_size 0 (new_memory start stack_size pool_size)
  some (record {
    m_pool_size = pool_size;
    m_stack_size = stack_size;
    m_free_cors = made.0;
    m_memory_pool = made.1 ∷ [];
  })

-- `!first->getIsInCoFunc() && !second`
abbrev pub is_idle : FreeCor → Bool
is_idle f = not f.is_in_cofunc && not f.is_lent

-- The first coroutine that neither runs nor is handed out.
unfoldable pub first_idle : List FreeCor → Option ℕ
first_idle [] = none
first_idle (f ∷ fs) =
    let rest : Option ℕ = elim (first_idle fs) [ none ↦ none | some i ↦ some (suc i) ] in
    if is_idle f then some 0 else rest

-- What `getBlock` of the first memory returned, or the search behind it.
unfoldable pub block_or :
    Option ℕ × Memory → Memory → List Memory → Option (ℕ × List Memory) → Option (ℕ × List Memory)
block_or (some stack, m') m ms rest = some (stack, m' ∷ ms)
block_or (none, m') m ms rest = do r ← rest; some (r.0, m ∷ r.1)

-- A block of the first of the memories that has one.
unfoldable pub block_of : List Memory → Option (ℕ × List Memory)
block_of [] = none
block_of (m ∷ ms) = block_or (get_block m) m ms (block_of ms)

abbrev outside : ℕ → Handle
outside stack = record { m_index = none; m_stack_sp = stack }

-- With a new memory, at `start`.
unfoldable pub grow : ℕ → CoroutinePool → Option (Handle × CoroutinePool)
grow start p = do
  let m = new_memory start p.m_stack_size p.m_pool_size
  stack ← (get_block m).0
  some (outside stack, record p { m_memory_pool = p.m_memory_pool ++ (get_block m).1 ∷ [] })

-- The block found in the memories behind the first, or a new memory.
unfoldable pub block_or_grow :
    ℕ → CoroutinePool → Memory → Option (ℕ × List Memory) → Option (Handle × CoroutinePool)
block_or_grow start p m none = grow start p
block_or_grow start p m (some (stack, ms)) =
    some (outside stack, record p { m_memory_pool = m ∷ ms })

unfoldable pub from_memory : ℕ → CoroutinePool → List Memory → Option (Handle × CoroutinePool)
from_memory start p [] = grow start p
from_memory start p (m ∷ ms) = block_or_grow start p m (block_of ms)

abbrev pub lend : FreeCor → FreeCor
lend f = record f { is_lent = true }

abbrev pub unlend : FreeCor → FreeCor
unlend f = record f { is_lent = false }

-- What `getCoroutineInstanse` does when its first loop stops at an index, or at none.
unfoldable pub hand_out : ℕ → CoroutinePool → Option ℕ → Option (Handle × CoroutinePool)
hand_out start p none = from_memory start p p.m_memory_pool
hand_out start p (some i) = do
  f ← get_elem? p.m_free_cors i
  some (f.cor, record p { m_free_cors = set p.m_free_cors i (lend f) })

unfoldable pub get_coroutine_instanse : ℕ → CoroutinePool → Option (Handle × CoroutinePool)
get_coroutine_instanse start p = hand_out start p (first_idle p.m_free_cors)

unfoldable pub back_blocks : ℕ → List Memory → List Memory
back_blocks stack [] = []
back_blocks stack (m ∷ ms) =
    (if has_block stack m then back_block stack m else m) ∷ back_blocks stack ms

-- Every memory but the first.
unfoldable pub back_rest : ℕ → List Memory → List Memory
back_rest stack [] = []
back_rest stack (m ∷ ms) = m ∷ back_blocks stack ms

unfoldable pub return_stack : ℕ → CoroutinePool → CoroutinePool
return_stack stack p = record p { m_memory_pool = back_rest stack p.m_memory_pool }

-- `m_free_cors[i].second = false`; an index outside the vector is a fault.
unfoldable pub return_index : ℕ → CoroutinePool → Option CoroutinePool
return_index i p = do
  f ← get_elem? p.m_free_cors i
  some (record p { m_free_cors = set p.m_free_cors i (unlend f) })

unfoldable pub return_coroutine : Handle → CoroutinePool → Option CoroutinePool
return_coroutine h p = elim h.m_index [
  | some i ↦ if ltb i p.m_pool_size then return_index i p else some (return_stack h.m_stack_sp p)
  | none ↦ some (return_stack h.m_stack_sp p)
]
