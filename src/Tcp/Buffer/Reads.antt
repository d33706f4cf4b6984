-- ===== src/Tcp/Buffer/Reads.antt =====
-- flconc/net/tcp/tcp_buffer.cc: the operations that move the indices, on the queue of unread bytes.
use flconc.Base.{
  ℕ, suc, ◌+◌, ◌-◌, ◌/◌, ◌≤◌, ◌<◌, ◌≡◌, refl, sym, ap, ◌∙◌, Bytes, [], ◌∷◌, ◌++◌, none, some, arith,
  min, le→ltb, lt→leb, ltb, Returns, length, take, drop, take_all, drop-take, drop-drop, ◌>>=◌,
  drop-nil, drop-length-take, length-take_short, subst, if◌then◌else◌,
}
use flconc.Base.Int.{pos, sub_ℕ, min_ℤ-pos, pos-add}
use flconc.Tcp.Buffer.{
  TcpBuffer, copy, adjust_buffer, read_from_buffer, recycle_to, recycle_read, recycle_write,
  get_buffer_string,
}
use flconc.Tcp.Buffer.Memory.{length-put}
use flconc.Tcp.Buffer.Refine.{
  Holds, Holds-length, read_able-Holds, extended, extended-Holds, copy-Holds, copy-min,
  adjust-Holds,
}

-- `getBufferString` returns the unread bytes.
pub get_buffer_string-Holds :
    {b : TcpBuffer} {xs : Bytes} → Holds b xs → get_buffer_string b ≡ some xs
unfolding get_buffer_string
get_buffer_string-Holds {xs = xs} h = rw (
  read_able-Holds h,
  copy-Holds h (length xs) (omega arith),
  take_all (length xs) xs (omega arith),
)

skip-Holds :
    {b : TcpBuffer} {xs : Bytes} (n : ℕ)
    → Holds b xs
    → n ≤ length xs
    → Holds (record b { m_read_index = b.m_read_index + n }) (drop n xs)
skip-Holds {b} {xs} n h l = record {
  ordered = omega (arith, Holds-length h);
  inside = h.inside;
  holds = rw (← h.holds) (
      ap (take (b.m_write_index - (b.m_read_index + n)))
        (sym (drop-drop b.m_read_index n (b.m_read_index + n) b.m_buffer refl))
      ∙ sym (
          drop-take (b.m_write_index - b.m_read_index) n (b.m_write_index - (b.m_read_index + n))
            (drop b.m_read_index b.m_buffer) (omega (arith, Holds-length h))));
}

pub recycle_to-inside :
    (b : TcpBuffer) (j : ℕ) (move : ℕ → TcpBuffer)
    → j ≤ length b.m_buffer
    → recycle_to b (pos j) move ≡ adjust_buffer (move j)
unfolding recycle_to
recycle_to-inside b j move h = rw (le→ltb _ _ h)

recycle_read-step :
    {b : TcpBuffer} {xs : Bytes} (n : ℕ)
    → Holds b xs
    → n ≤ length xs
    → recycle_read b (pos n) ≡ adjust_buffer (record b { m_read_index = b.m_read_index + n })
unfolding recycle_read
recycle_read-step {b} {xs} n h l =
    rw (pos-add b.m_read_index n)
      (recycle_to-inside b (b.m_read_index + n) _ (omega (arith, Holds-length h, h.inside)))

-- `recycleRead` of no more than is unread drops so many bytes.
pub recycle_read-Holds :
    {b : TcpBuffer} {xs : Bytes} (n : ℕ)
    → Holds b xs
    → n ≤ length xs
    → Returns (recycle_read b (pos n)) (λ b'. Holds b' (drop n xs))
recycle_read-Holds n h l =
    let (b', p, q) = adjust-Holds (skip-Holds n h l) in (b', recycle_read-step n h l ∙ p, q.0)

-- What `readFromBuffer` leaves in its out-parameter.
abbrev pub taken : Bytes → ℕ → Bytes → Bytes
taken re n [] = re
taken re n (x ∷ xs) = take n (x ∷ xs)

read-nil :
    {b : TcpBuffer} (re : Bytes) (n : ℕ) → Holds b [] → read_from_buffer b re (pos n) ≡ some (re, b)
unfolding read_from_buffer
read-nil re n h = rw (read_able-Holds h)

read-cons :
    {b : TcpBuffer} {x : ℕ} {xs : Bytes} (re : Bytes) (n : ℕ)
    → Holds b (x ∷ xs)
    → read_from_buffer b re (pos n) ≡ (
        adjust_buffer (record b { m_read_index = b.m_read_index + length (take n (x ∷ xs)) })
        >>= λ b'. some (take n (x ∷ xs), b'))
unfolding read_from_buffer
read-cons {b} {x} {xs} re n h =
    let e : min (suc (length xs)) n ≡ min n (suc (length xs)) = omega arith in
    rw (read_able-Holds h, min_ℤ-pos (suc (length xs)) n, e, copy-min n h)

-- `readFromBuffer` hands over the first `size` unread bytes and drops them; with nothing unread it
-- leaves the caller's vector as it was.
pub read-Holds :
    {b : TcpBuffer} (xs re : Bytes) (n : ℕ)
    → Holds b xs
    → Returns (read_from_buffer b re (pos n)) (λ r. (r.0 ≡ taken re n xs) × Holds r.1 (drop n xs))
read-Holds {b} [] re n h = ((re, b), read-nil re n h, (refl, subst (Holds b) (sym (drop-nil n)) h))
read-Holds {b} (x ∷ xs) re n h =
    let got : Bytes = take n (x ∷ xs) in
    let (b', p, q) = adjust-Holds (skip-Holds (length got) h (length-take_short n (x ∷ xs))) in
    (
      (got, b'),
      rw (read-cons re n h, p),
      (refl, subst (Holds b') (drop-length-take n (x ∷ xs)) q.0),
    )

-- What `read` of the socket stores at `&m_buffer[m_write_index]`, before `recycleWrite`.
unfoldable pub filled : TcpBuffer → Bytes → TcpBuffer
filled b ys = record (extended b ys) { m_write_index = b.m_write_index }

-- Bytes stored behind the write index, and then `recycleWrite` of their number, are appended.
pub recycle_write-Holds :
    {b : TcpBuffer} {xs : Bytes} (ys : Bytes)
    → Holds b xs
    → b.m_write_index + length ys ≤ length b.m_buffer
    → Returns
        (recycle_write (filled b ys) (pos (length ys)))
        (λ b'. Holds b' (xs ++ ys) × (b'.m_read_index ≤ b.m_read_index))
unfolding recycle_write filled
recycle_write-Holds {b} {xs} ys h l =
    let (b', p, q) = adjust-Holds (extended-Holds ys h l) in
    (
      b',
      rw (pos-add b.m_write_index (length ys)) (
          recycle_to-inside (filled b ys) (b.m_write_index + length ys) _
            (omega (arith, length-put b.m_buffer b.m_write_index ys l))
          ∙ p),
      (q.0, q.2),
    )

copy-crossed : (xs : Bytes) (r w : ℕ) → w < r → copy xs r (sub_ℕ w r) ≡ none
unfolding copy
copy-crossed xs r w h = rw (lt→leb r w h)

adjust-crossed :
    (b : TcpBuffer)
    → b.m_write_index < b.m_read_index
    → adjust_buffer b ≡ (if ltb (length b.m_buffer / 3) b.m_read_index then none else some b)
unfolding adjust_buffer
adjust-crossed b h = rw (copy-crossed b.m_buffer b.m_read_index b.m_write_index h)

-- `recycleRead` checks its argument against the vector and not against the write index: past the
-- unread bytes it leaves the indices crossed, or faults in the move that should follow.
pub recycle_read_overrun :
    {b : TcpBuffer} {xs : Bytes} (n : ℕ)
    → Holds b xs
    → length xs < n
    → b.m_read_index + n ≤ length b.m_buffer
    → recycle_read b (pos n) ≡ (
        if ltb (length b.m_buffer / 3) (b.m_read_index + n)
        then none
        else some (record b { m_read_index = b.m_read_index + n }))
unfolding recycle_read
recycle_read_overrun {b} {xs} n h l m =
    rw (pos-add b.m_read_index n, recycle_to-inside b (b.m_read_index + n) _ m)
      (adjust-crossed (record b { m_read_index = b.m_read_index + n })
        (omega (arith, Holds-length h)))
