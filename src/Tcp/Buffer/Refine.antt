-- ===== src/Tcp/Buffer/Refine.antt =====
-- flconc/net/tcp/tcp_buffer.cc: the buffer is a queue of the bytes between its two indices.
use flconc.Base.{
  subst, ℕ, ◌+◌, ◌-◌, ◌/◌, ◌≤◌, ◌<◌, ◌*◌, ◌^◌, ◌>>=◌, ◌≡◌, refl, sym, ap, ◌∙◌, inl, inr, Bytes, [],
  ◌++◌, some, true, arith, min, ltb, Bool-cases, Returns, length, take, drop, length-append,
  length-take, length-drop, take-front, length-take_le, slice-write, take_all, take-min, take-take,
}
use flconc.Base.Int.{min_ℤ-pos, pos, ltb_ℤ}
use flconc.Tcp.Buffer.{
  TcpBuffer, copy, init, read_able, write_able, resize_buffer, write_at_end, write_to_buffer,
  adjust_buffer, zeros, swap_in, grown, int_size,
}
use flconc.Tcp.Buffer.Memory.{copy-take, put-append, length-put, put-fresh, length-fresh}

-- The bytes written and not yet read.
abbrev pub contents : TcpBuffer → Bytes
contents b = take (b.m_write_index - b.m_read_index) (drop b.m_read_index b.m_buffer)

-- The indices are in order and inside the vector, and `xs` stands between them.
pub record Holds (b : TcpBuffer) (xs : Bytes) : Type 0 where
  pub ordered : b.m_read_index ≤ b.m_write_index
  pub inside : b.m_write_index ≤ length b.m_buffer
  pub holds : contents b ≡ xs

pub Holds-length :
    {b : TcpBuffer} {xs : Bytes} → Holds b xs → b.m_read_index + length xs ≡ b.m_write_index
Holds-length {b} {xs} h = omega (
  arith,
  ap length h.holds,
  length-drop b.m_read_index b.m_buffer,
  length-take (b.m_write_index - b.m_read_index) (drop b.m_read_index b.m_buffer)
      (omega (arith, length-drop b.m_read_index b.m_buffer, h.ordered, h.inside)),
)

pub read_able-Holds : {b : TcpBuffer} {xs : Bytes} → Holds b xs → read_able b ≡ pos (length xs)
read_able-Holds {b} {xs} h = ground (arith, Holds-length h)

-- `xs` at the front of a vector.
pub Holds-front :
    (xs ys : Bytes)
    → Holds (record { m_read_index = 0; m_write_index = length xs; m_buffer = xs ++ ys }) xs
Holds-front xs ys = record {
  ordered = omega arith;
  inside = omega (arith, length-append xs ys);
  holds = ap (λ k. take k (xs ++ ys)) (omega arith) ∙ take-front xs ys;
}

-- `xs` behind what has been read.
pub copy-Holds :
    {b : TcpBuffer} {xs : Bytes}
    → Holds b xs
    → (n : ℕ) → n ≤ length xs
    → copy b.m_buffer b.m_read_index (pos n) ≡ some (take n xs)
copy-Holds {b} {xs} h n l =
    copy-take b.m_buffer b.m_read_index n (omega (arith, Holds-length h, h.inside))
    ∙ rw (← h.holds) (
        ap some (
          sym (
            take-take n (b.m_write_index - b.m_read_index) (drop b.m_read_index b.m_buffer)
              (omega (arith, Holds-length h)))))

swap_in-Holds :
    (size : ℕ) (xs : Bytes)
    → length xs ≤ size
    → Returns
        (swap_in size xs)
        (λ b. Holds b xs × (length b.m_buffer ≡ size) × (b.m_read_index ≡ 0))
unfolding swap_in
swap_in-Holds size xs h = (
  record {
    m_read_index = 0;
    m_write_index = length xs;
    m_buffer = xs ++ drop (length xs) (zeros size);
  },
  rw (put-fresh size xs h),
  (Holds-front xs (drop (length xs) (zeros size)), length-fresh size xs h, refl),
)

-- `TcpBuffer(int)` starts empty.
pub init-Holds : (size : ℕ) → Holds (init size) []
unfolding init
init-Holds size = record {
  ordered = omega arith;
  inside = omega arith;
  holds = let e : 0 - 0 ≡ 0 = omega arith in ap (λ k. take k (zeros size)) e;
}

adjust_eq :
    {b : TcpBuffer} {xs : Bytes}
    → Holds b xs
    → ltb (length b.m_buffer / 3) b.m_read_index ≡ true
    → adjust_buffer b ≡ swap_in (length b.m_buffer) xs
unfolding adjust_buffer
adjust_eq {b} {xs} h e = rw (
  e,
  read_able-Holds h,
  copy-Holds h (length xs) (omega arith),
  take_all (length xs) xs (omega arith),
)

pub adjust-Holds :
    {b : TcpBuffer} {xs : Bytes}
    → Holds b xs
    → Returns (adjust_buffer b) (λ b'.
      Holds b' xs × (length b'.m_buffer ≡ length b.m_buffer) × (b'.m_read_index ≤ b.m_read_index))
adjust-Holds {b} {xs} h = elim (Bool-cases (ltb (length b.m_buffer / 3) b.m_read_index)) [
  | inl e ↦
      let (b', p, q) =
        swap_in-Holds (length b.m_buffer) xs (omega (arith, Holds-length h, h.inside)) in
      (b', adjust_eq h e ∙ p, (q.0, q.1, omega (arith, q.2)))
  | inr e ↦ (b, (unfold adjust_buffer in rw e), (h, refl, omega arith))
]

-- A copy of at most `n` bytes of what is held.
pub copy-min :
    {b : TcpBuffer} {xs : Bytes} (n : ℕ)
    → Holds b xs
    → copy b.m_buffer b.m_read_index (pos (min n (length xs))) ≡ some (take n xs)
copy-min {xs = xs} n h = copy-Holds h _ (omega arith) ∙ ap some (take-min n xs)

resize_eq :
    {b : TcpBuffer} {xs : Bytes} (size : ℕ)
    → Holds b xs
    → resize_buffer b size ≡ swap_in size (take size xs)
unfolding resize_buffer
resize_eq {b} {xs} size h = rw (read_able-Holds h, min_ℤ-pos size (length xs), copy-min size h)

-- `resizeBuffer` keeps the first `size` unread bytes, at the front of a vector of `size`.
pub resize-Holds :
    {b : TcpBuffer} {xs : Bytes} (size : ℕ)
    → Holds b xs
    → Returns
        (resize_buffer b size)
        (λ b'. Holds b' (take size xs) × (length b'.m_buffer ≡ size) × (b'.m_read_index ≡ 0))
resize-Holds {b} {xs} size h =
    let (b', p, q) = swap_in-Holds size (take size xs) (length-take_le size xs) in
    (b', resize_eq size h ∙ p, q)

-- `ys` stored at the write index, and the index moved behind them.
abbrev pub extended : TcpBuffer → Bytes → TcpBuffer
extended b ys = record {
  m_read_index = b.m_read_index;
  m_write_index = b.m_write_index + length ys;
  m_buffer =
      take b.m_write_index b.m_buffer ++ (ys ++ drop (b.m_write_index + length ys) b.m_buffer);
}

pub extended-Holds :
    {b : TcpBuffer} {xs : Bytes} (ys : Bytes)
    → Holds b xs
    → b.m_write_index + length ys ≤ length b.m_buffer
    → Holds (extended b ys) (xs ++ ys)
extended-Holds {b} {xs} ys h l = record {
  ordered = omega (arith, h.ordered);
  inside = omega (arith, length-put b.m_buffer b.m_write_index ys l);
  holds =
      slice-write b.m_read_index b.m_write_index b.m_buffer ys
        (drop (b.m_write_index + length ys) b.m_buffer) h.ordered h.inside
      ∙ ap (λ zs. zs ++ ys) h.holds;
}

write_at_end-Holds :
    {b : TcpBuffer} {xs : Bytes} (ys : Bytes)
    → Holds b xs
    → b.m_write_index + length ys ≤ length b.m_buffer
    → Returns
        (write_at_end b ys)
        (λ b'. Holds b' (xs ++ ys) × (b'.m_write_index ≤ b.m_write_index + length ys))
unfolding write_at_end
write_at_end-Holds {b} ys h l = (
  extended b ys,
  rw (put-append b.m_buffer b.m_write_index ys l),
  (extended-Holds ys h l, omega arith),
)

-- Behind so many more bytes, the size that `writeToBuffer` may ask for is still an `int`.
abbrev pub HasRoom : TcpBuffer → ℕ → Type 0
HasRoom b n = (b.m_write_index + n) * 3 / 2 < 2 ^ 31

pub int_size-eq : (n : ℕ) → n < 2 ^ 31 → int_size n ≡ some n
unfolding int_size
int_size-eq n h = ground (arith, h)

grown-Holds :
    {b : TcpBuffer} {xs : Bytes} (ys : Bytes)
    → HasRoom b (length ys)
    → Holds b xs
    → Returns (grown b (length ys) >>= resize_buffer b) (λ b'.
      Holds b' xs
      × (b'.m_write_index + length ys ≤ length b'.m_buffer)
      × (b'.m_write_index ≤ b.m_write_index))
grown-Holds {b} {xs} ys r h =
    let n : ℕ = (b.m_write_index + length ys) * 3 / 2 in
    let (b', p, q) = resize-Holds n h in
    let all : take n xs ≡ xs = take_all n xs (omega (arith, Holds-length h)) in
    let held : Holds b' xs = subst (Holds b') all q.0 in
    (
      b',
      rw (int_size-eq n r) p,
      (
        held,
        omega (arith, Holds-length held, Holds-length h, q.1, q.2),
        omega (arith, Holds-length held, Holds-length h, q.2),
      ),
    )

-- Where the size that may be asked for is an `int`, `writeToBuffer` finds room, and appends; the write
-- index is at most as much further as there are bytes.
pub write-Holds :
    {b : TcpBuffer} {xs : Bytes} (ys : Bytes)
    → HasRoom b (length ys)
    → Holds b xs
    → Returns
        (write_to_buffer b ys)
        (λ b'. Holds b' (xs ++ ys) × (b'.m_write_index ≤ b.m_write_index + length ys))
unfolding write_to_buffer
write-Holds {b} {xs} ys r h = elim (Bool-cases (ltb_ℤ (write_able b) (pos (length ys)))) [
  | inl e ↦
      let (b', p, q) = grown-Holds ys r h in
      let (b'', p', q') = write_at_end-Holds ys q.0 q.1 in
      (b'', rw (e, p, p'), (q'.0, omega (arith, q.2, q'.1)))
  | inr e ↦ rw (e) (write_at_end-Holds ys h (ground arith))
]
