-- ===== src/Coroutine/Pool/Lent.antt =====
-- flconc/coroutine/coroutine_pool.cc: a coroutine is handed out once until it is returned.
use flconc.Base.{
  ◌*◌, ◌==◌, ==_iff, subst, ℕ, zero, suc, ◌+◌, ◌<◌, ◌≡◌, ◌≢◌, refl, sym, ap, ◌∙◌, true, false, List,
  [], ◌∷◌, Option, none, some, ◌>>=◌, get_elem?, set, length-set, get_elem?-lt, get_elem?-set,
  get_elem?-set_other, set-set_back, arith, length, Returns, Option-cases, Bool-cases, lt→ltb, inl,
  inr,
}
use mathlib.Core.Option.{some-injective}
use flconc.Coroutine.Memory.{Memory, new_memory, get_block, take_block, first_free}
use flconc.Coroutine.Pool.{
  Handle, FreeCor, CoroutinePool, is_idle, first_idle, get_coroutine_instanse, return_coroutine,
  return_index, lend, unlend, hand_out, grow, from_memory, block_of, block_or_grow,
}

-- Entry `i` of `m_free_cors` holds the coroutine of index `i`, and there are `m_pool_size`.
pub record IsIndexed (p : CoroutinePool) : Type 0 where
  pub sized : length p.m_free_cors ≡ p.m_pool_size
  pub indexed : (i : ℕ) (f : FreeCor) → get_elem? p.m_free_cors i ≡ some f → f.cor.m_index ≡ some i

-- The coroutine of index `i` is handed out.
unfoldable pub IsLent : ℕ → CoroutinePool → Type 0
IsLent i p = (f : FreeCor) × (get_elem? p.m_free_cors i ≡ some f) × (f.is_lent ≡ true)

is_idle-parts : (f : FreeCor) → is_idle f ≡ true → (f.is_in_cofunc ≡ false) × (f.is_lent ≡ false)
is_idle-parts f h = ground arith

first_idle-some :
    (fs : List FreeCor) (i : ℕ)
    → first_idle fs ≡ some i
    → (f : FreeCor) × (get_elem? fs i ≡ some f) × (f.is_in_cofunc ≡ false) × (f.is_lent ≡ false)
unfolding first_idle
first_idle-some [] i e = cc
first_idle-some (f ∷ fs) i e = elim (Bool-cases (is_idle f)) [
  | inl h ↦
      let here : i ≡ 0 = some-injective _ _ (sym e ∙ rw h refl) in
      rw here (f, refl, (is_idle-parts f h).0, (is_idle-parts f h).1)
  | inr h ↦ elim (Option-cases (first_idle fs)) [
    | inl n ↦ cc (rw (h, n) at e)
    | inr (j, s) ↦
        let there : suc j ≡ i = some-injective _ _ (rw (h, s) at e) in
        rw (← there) (first_idle-some fs j s)
  ]
]

get-idle :
    (start i : ℕ) (p : CoroutinePool) (f : FreeCor)
    → first_idle p.m_free_cors ≡ some i
    → get_elem? p.m_free_cors i ≡ some f
    → get_coroutine_instanse start p
      ≡ some (f.cor, record p { m_free_cors = set p.m_free_cors i (lend f) })
unfolding get_coroutine_instanse hand_out
get-idle start i p f h e = rw (h, e)

return-lent :
    (h : Handle) (i : ℕ) (p : CoroutinePool) (f : FreeCor)
    → h.m_index ≡ some i
    → i < p.m_pool_size
    → get_elem? p.m_free_cors i ≡ some f
    → return_coroutine h p ≡ some (record p { m_free_cors = set p.m_free_cors i (unlend f) })
unfolding return_coroutine return_index
return-lent h i p f e l g = rw (e, lt→ltb i p.m_pool_size l, g)

unlend-lend : (f : FreeCor) → f.is_lent ≡ false → unlend (lend f) ≡ f
unlend-lend f h = ap (λ b. record f { is_lent = b }) (sym h)

-- While a coroutine of the pool is idle, the first such one is handed out, and `returnCoroutine` of
-- it restores the pool.
pub return-get :
    (start i : ℕ) (p : CoroutinePool)
    → IsIndexed p
    → first_idle p.m_free_cors ≡ some i
    → Returns
        (get_coroutine_instanse start p)
        (λ r. (r.0.m_index ≡ some i) × IsLent i r.1 × (return_coroutine r.0 r.1 ≡ some p))
unfolding IsLent
return-get start i p v h =
    let (f, e, idle, free) = first_idle-some p.m_free_cors i h in
    let l : i < length p.m_free_cors = get_elem?-lt p.m_free_cors i f e in
    let held = get_elem?-set p.m_free_cors i (lend f) l in
    let p' : CoroutinePool = record p { m_free_cors = set p.m_free_cors i (lend f) } in
    (
      (f.cor, p'),
      get-idle start i p f h e,
      (
        v.indexed i f e,
        (lend f, held, refl),
        return-lent f.cor i p' (lend f) (v.indexed i f e) (omega (arith, l, v.sized)) held
            ∙ ap (λ fs. some (record p { m_free_cors = fs }))
                (ap (set (set p.m_free_cors i (lend f)) i) (unlend-lend f free)
                  ∙ set-set_back p.m_free_cors i f (lend f) e),
      ),
    )

-- What a call that finds no idle coroutine leaves alone.
abbrev Outside : CoroutinePool → Handle × CoroutinePool → Type 0
Outside p r =
    (r.0.m_index ≡ none) × (r.1.m_free_cors ≡ p.m_free_cors) × (r.1.m_pool_size ≡ p.m_pool_size)

get_block-new :
    (start size count : ℕ)
    → 0 < count
    → (get_block (new_memory start size count)).0 ≡ some (start + 0 * size)
unfolding get_block new_memory take_block first_free
get_block-new start size zero h = absurd (omega arith)
get_block-new start size (suc count) h = refl

grow-Outside :
    (start : ℕ) (p : CoroutinePool) → 0 < p.m_pool_size → Returns (grow start p) (Outside p)
unfolding grow
grow-Outside start p h =
    rw (get_block-new start p.m_stack_size p.m_pool_size h) (_, refl, (refl, refl, refl))

from_memory-Outside :
    (start : ℕ) (p : CoroutinePool) (ms : List Memory)
    → 0 < p.m_pool_size
    → Returns (from_memory start p ms) (Outside p)
unfolding from_memory block_or_grow
from_memory-Outside start p [] h = grow-Outside start p h
from_memory-Outside start p (m ∷ ms) h = elim (Option-cases (block_of ms)) [
  | inl e ↦ rw e (grow-Outside start p h)
  | inr (r, e) ↦ rw e (_, refl, (refl, refl, refl))
]

set-indexed :
    (p : CoroutinePool) (i : ℕ) (f : FreeCor) (k : ℕ) (g : FreeCor)
    → IsIndexed p
    → get_elem? p.m_free_cors i ≡ some f
    → get_elem? (set p.m_free_cors i (lend f)) k ≡ some g
    → g.cor.m_index ≡ some k
set-indexed p i f k g v e h = elim (Bool-cases (i == k)) [
  | inl same ↦
      let s : i ≡ k = (==_iff i k).0 same in
      let at = get_elem?-set p.m_free_cors i (lend f) (get_elem?-lt p.m_free_cors i f e) in
      let there = subst (λ x. get_elem? (set p.m_free_cors i (lend f)) x ≡ some g) (sym s) h in
      let is : lend f ≡ g = some-injective _ _ (sym at ∙ there) in
      ap (λ x. x.cor.m_index) (sym is) ∙ v.indexed i f e ∙ ap some s
  | inr other ↦
      let apart : i ≢ k = λ s. ground (arith, s, other) in
      v.indexed k g (sym (get_elem?-set_other p.m_free_cors i k (lend f) apart) ∙ h)
]

set-IsIndexed :
    (p : CoroutinePool) (i : ℕ) (f : FreeCor)
    → IsIndexed p
    → get_elem? p.m_free_cors i ≡ some f
    → IsIndexed (record p { m_free_cors = set p.m_free_cors i (lend f) })
set-IsIndexed p i f v e = record {
  sized = length-set p.m_free_cors i (lend f) ∙ v.sized;
  indexed = λ k g h. set-indexed p i f k g v e h;
}

-- While the coroutine of index `i` is handed out, `getCoroutineInstanse` succeeds and hands out another
-- one, and that of index `i` stays handed out.
pub get-IsLent :
    (start i : ℕ) (p : CoroutinePool)
    → IsIndexed p
    → 0 < p.m_pool_size
    → IsLent i p
    → Returns (get_coroutine_instanse start p) (λ r.
      (r.0.m_index ≢ some i) × IsLent i r.1 × IsIndexed r.1 × (r.1.m_pool_size ≡ p.m_pool_size))
unfolding IsLent get_coroutine_instanse hand_out
get-IsLent start i p v h (g, at, lent) = elim (Option-cases (first_idle p.m_free_cors)) [
  | inl e ↦
      let (r, q, out) = from_memory-Outside start p p.m_memory_pool h in
      let same : p.m_free_cors ≡ r.1.m_free_cors = sym out.1 in
      let valid : IsIndexed r.1 = record {
        sized = ap length out.1 ∙ v.sized ∙ sym out.2;
        indexed = λ k f there. v.indexed k f (ap (λ fs. get_elem? fs k) same ∙ there);
      } in
      (
        r,
        rw e q,
        ((λ x. cc (sym out.0 ∙ x)), (g, ap (λ fs. get_elem? fs i) out.1 ∙ at, lent), valid, out.2),
      )
  | inr (j, e) ↦
      let (f, there, idle, free) = first_idle-some p.m_free_cors j e in
      let apart : j ≢ i = λ q.
        let is : f ≡ g = some-injective _ _ (sym there ∙ ap (get_elem? p.m_free_cors) q ∙ at) in
        cc (sym free ∙ ap (λ x. x.is_lent) is ∙ lent) in
      (
        (f.cor, record p { m_free_cors = set p.m_free_cors j (lend f) }),
        get-idle start j p f e there,
        (
          (λ q. apart (some-injective _ _ (sym (v.indexed j f there) ∙ q))),
          (g, get_elem?-set_other p.m_free_cors j i (lend f) apart ∙ at, lent),
          set-IsIndexed p j f v there,
          refl,
        ),
      )
]

-- The coroutines that a call of `getCoroutineInstanse` per address of the list hands out.
pub gets : List ℕ → CoroutinePool → Option (List Handle × CoroutinePool)
gets [] p = some ([], p)
gets (start ∷ starts) p = do
  r ← get_coroutine_instanse start p
  rest ← gets starts r.1
  some (r.0 ∷ rest.0, rest.1)

pub AllOther : ℕ → List Handle → Type 0
AllOther i [] = Unit {0}
AllOther i (h ∷ hs) = (h.m_index ≢ some i) × AllOther i hs

-- While the coroutine of index `i` is marked as handed out, any number of calls succeed, and none hands it
-- out again.
pub gets-IsLent :
    (i : ℕ) (starts : List ℕ) (p : CoroutinePool)
    → IsIndexed p
    → 0 < p.m_pool_size
    → IsLent i p
    → Returns (gets starts p) (λ r. AllOther i r.0 × IsLent i r.1)
unfolding gets AllOther
gets-IsLent i [] p v h l = (([], p), refl, (tt, l))
gets-IsLent i (start ∷ starts) p v h l =
    let (r, e, q) = get-IsLent start i p v h l in
    let (rest, e', all) = gets-IsLent i starts r.1 q.2 (omega (arith, h, q.3)) q.1 in
    ((r.0 ∷ rest.0, rest.1), rw (e, e'), ((q.0, all.0), all.1))

get-IsIndexed :
    (start i : ℕ) (p : CoroutinePool)
    → IsIndexed p
    → first_idle p.m_free_cors ≡ some i
    → Returns (get_coroutine_instanse start p) (λ r.
      (r.0.m_index ≡ some i) × IsLent i r.1 × IsIndexed r.1 × (r.1.m_pool_size ≡ p.m_pool_size))
unfolding IsLent
get-IsIndexed start i p v h =
    let (f, e, idle, free) = first_idle-some p.m_free_cors i h in
    let l : i < length p.m_free_cors = get_elem?-lt p.m_free_cors i f e in
    (
      (f.cor, record p { m_free_cors = set p.m_free_cors i (lend f) }),
      get-idle start i p f h e,
      (
        v.indexed i f e,
        (lend f, get_elem?-set p.m_free_cors i (lend f) l, refl),
        set-IsIndexed p i f v e,
        refl,
      ),
    )

-- On a pool whose entries hold the coroutines of their indices, one of which is idle: the first call hands
-- out the first idle one, and any number of calls behind it succeed, and none hands it out again.
pub gets-once :
    (start i : ℕ) (starts : List ℕ) (p : CoroutinePool)
    → IsIndexed p
    → 0 < p.m_pool_size
    → first_idle p.m_free_cors ≡ some i
    → (h : Handle) × (h.m_index ≡ some i)
      × Returns (gets (start ∷ starts) p) (λ r. (hs : List Handle) × (r.0 ≡ h ∷ hs) × AllOther i hs)
unfolding gets
gets-once start i starts p v n h =
    let (r, e, (is, lent, v', size)) = get-IsIndexed start i p v h in
    let (rest, e', all) = gets-IsLent i starts r.1 v' (omega (arith, n, size)) lent in
    (r.0, is, ((r.0 ∷ rest.0, rest.1), simp (e, e'), (rest.0, refl, all.0)))
