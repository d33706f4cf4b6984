-- ===== src/Coroutine/Memory.antt =====
-- flconc/coroutine/memory.cc: blocks of one size, cut from one allocation. Addresses are numbers;
-- `m_start` is what `malloc` returned.
use native.Mathlib.Nat.{mul-div_cancel, mul-le-mul_right, add-sub_cancel_left, le-add_right}
use mathlib.Core.Option.{some-injective}
use flconc.Base.{
  ℕ, zero, suc, ◌+◌, ◌-◌, ◌*◌, ◌/◌, ◌≤◌, ◌<◌, ◌≡◌, refl, ap, sym, ◌∙◌, Bool, true, false, ◌&&◌,
  ◌||◌, List, [], ◌∷◌, Option, none, some, ltb, leb, if◌then◌else◌, length, get_elem?, set,
  replicate, arith, inl, inr, ◌⊎◌, Option-cases, length-set, le→ltb, subst, length-replicate,
}
use flconc.Base.Int.{ℤ, pos, ◌+ℤ◌, ◌-ℤ◌}

-- `m_end` is the address of the last byte.
pub record Memory : Type 0 where
  pub m_block_size : ℕ
  pub m_block_count : ℕ
  pub m_start : ℕ
  pub m_ref_counts : ℤ
  pub m_blocks : List Bool

abbrev pub m_size : Memory → ℕ
m_size m = m.m_block_count * m.m_block_size

abbrev pub m_end : Memory → ℕ
m_end m = m.m_start + m_size m - 1

unfoldable pub new_memory : ℕ → ℕ → ℕ → Memory
new_memory start block_size block_count = record {
  m_block_size = block_size;
  m_block_count = block_count;
  m_start = start;
  m_ref_counts = pos 0;
  m_blocks = replicate block_count false;
}

-- The index of the first free block.
unfoldable pub first_free : List Bool → Option ℕ
first_free [] = none
first_free (false ∷ bs) = some 0
first_free (true ∷ bs) = elim (first_free bs) [ none ↦ none | some i ↦ some (suc i) ]

unfoldable pub take_block : Memory → Option ℕ → Option ℕ × Memory
take_block m none = (none, m)
take_block m (some t) = (
  some (m.m_start + t * m.m_block_size),
  record m { m_blocks = set m.m_blocks t true; m_ref_counts = m.m_ref_counts +ℤ pos 1 },
)

-- The address, or `none` for NULL.
unfoldable pub get_block : Memory → Option ℕ × Memory
get_block m = take_block m (first_free m.m_blocks)

unfoldable pub back_block : ℕ → Memory → Memory
back_block s m = if ltb (m_end m) s || ltb s m.m_start then m else record m {
  m_blocks = set m.m_blocks ((s - m.m_start) / m.m_block_size) false;
  m_ref_counts = m.m_ref_counts -ℤ pos 1;
}

unfoldable pub has_block : ℕ → Memory → Bool
has_block s m = leb m.m_start s && leb s (m_end m)

-- The blocks in use.
pub used : List Bool → ℕ
used [] = 0
used (true ∷ bs) = suc (used bs)
used (false ∷ bs) = used bs

-- There is a flag for each block, blocks have a size, and the counter counts the blocks in use.
pub record IsValid (m : Memory) : Type 0 where
  pub flags : length m.m_blocks ≡ m.m_block_count
  pub sized : 0 < m.m_block_size
  pub counted : m.m_ref_counts ≡ pos (used m.m_blocks)

pub used-replicate : (n : ℕ) → used (replicate n false) ≡ 0
unfolding used
used-replicate zero = refl
used-replicate (suc n) = used-replicate n

-- `Memory(block_size, block_count)` is valid, and no block is in use.
pub new_memory-IsValid : (start size count : ℕ) → 0 < size → IsValid (new_memory start size count)
unfolding new_memory
new_memory-IsValid start size count h = record {
  flags = length-replicate count false;
  sized = h;
  counted = ap pos (sym (used-replicate count));
}

first_free-some :
    (bs : List Bool) (i : ℕ)
    → first_free bs ≡ some i
    → (i < length bs)
      × (get_elem? bs i ≡ some false)
      × (used (set bs i true) ≡ suc (used bs))
      × (set (set bs i true) i false ≡ bs)
unfolding first_free used
first_free-some [] i e = cc
first_free-some (false ∷ bs) zero e = (omega arith, refl, refl, refl)
first_free-some (false ∷ bs) (suc i) e = cc
first_free-some (true ∷ bs) zero e = elim (Option-cases (first_free bs)) [
  | inl n ↦ grind arith
  | inr (j, s) ↦ grind arith
]
first_free-some (true ∷ bs) (suc i) e = elim (Option-cases (first_free bs)) [
  | inl n ↦ grind arith
  | inr (j, s) ↦
      let (lt, free, more, back) = first_free-some bs i (grind arith) in
      (omega (lt, arith), free, ap suc more, ap (◌∷◌ true) back)
]

first_free-none : (bs : List Bool) → first_free bs ≡ none → used bs ≡ length bs
unfolding first_free used
first_free-none [] e = refl
first_free-none (false ∷ bs) e = cc
first_free-none (true ∷ bs) e = ground (arith, first_free-none bs)

div_block : (start i size : ℕ) → 0 < size → (start + i * size - start) / size ≡ i
div_block start i size h = rw (add-sub_cancel_left start (i * size)) (mul-div_cancel i h)

block_inside :
    (start i size count : ℕ) → 0 < size → i < count → start + i * size ≤ start + count * size - 1
block_inside start i size count h l =
    let more : (i + 1) * size ≤ count * size = mul-le-mul_right size (omega arith) in
    omega (h, more, arith)

back-take :
    (m : Memory) (n i : ℕ)
    → 0 < m.m_block_size
    → i < m.m_block_count
    → m.m_ref_counts ≡ pos n
    → set (set m.m_blocks i true) i false ≡ m.m_blocks
    → back_block (m.m_start + i * m.m_block_size) (take_block m (some i)).1 ≡ m
unfolding back_block take_block
back-take m n i h l c s =
    rw
      (
        le→ltb _ _ (block_inside m.m_start i m.m_block_size m.m_block_count h l),
        le→ltb _ _ (le-add_right m.m_start (i * m.m_block_size)),
        div_block m.m_start i m.m_block_size h,
        s,
      )
      (ap (λ r. record m { m_ref_counts = r }) (rw c (ground arith)))

-- `backBlock` of the block that `getBlock` handed out restores the memory.
pub back_block-get_block :
    (m : Memory) (s : ℕ) → IsValid m → (get_block m).0 ≡ some s → back_block s (get_block m).1 ≡ m
unfolding get_block take_block
back_block-get_block m s v e = elim (Option-cases (first_free m.m_blocks)) [
  | inl n ↦ cc (rw n at e)
  | inr (i, f) ↦
      let (l, free, more, back) = first_free-some m.m_blocks i f in
      rw f (
        subst (λ x. back_block x (take_block m (some i)).1 ≡ m) (some-injective _ _ (rw f at e))
          (back-take m (used m.m_blocks) i v.sized (rw v.flags at l) v.counted back))
]

-- `getBlock` on a valid memory keeps it valid. While a block is free it hands out the address of one,
-- inside the allocation, and marks it; and when none is, it returns NULL and changes nothing.
pub get_block-IsValid :
    (m : Memory)
    → IsValid m
    → IsValid (get_block m).1
      × ((used m.m_blocks ≡ m.m_block_count) × (get_block m ≡ (none, m))
          ⊎ (i : ℕ) × (i < m.m_block_count)
            × (get_elem? m.m_blocks i ≡ some false)
            × ((get_block m).0 ≡ some (m.m_start + i * m.m_block_size))
            × (used (get_block m).1.m_blocks ≡ suc (used m.m_blocks)))
unfolding get_block take_block
get_block-IsValid m v = elim (Option-cases (first_free m.m_blocks)) [
  | inl n ↦ rw n (v, inl (first_free-none m.m_blocks n ∙ v.flags, refl))
  | inr (i, f) ↦
      let (l, free, more, back) = first_free-some m.m_blocks i f in
      rw f (
        record {
          flags = length-set m.m_blocks i true ∙ v.flags;
          sized = v.sized;
          counted = rw (v.counted, more) (ground arith);
        },
        inr (i, rw v.flags at l, free, refl, more),
      )
]

pub get_block_count : (m : Memory) → (get_block m).1.m_block_count ≡ m.m_block_count
unfolding get_block take_block
get_block_count m = elim (Option-cases (first_free m.m_blocks)) [
  | inl n ↦ rw n refl
  | inr (i, f) ↦ rw f refl
]
