-- ===== src/Tcp/Connection/Input.antt =====
-- flconc/net/tcp/tcp_connection.cc: `input`. What `read_hook` returns is a function of the number of bytes
-- asked for; where the list of answers ends the connection waits in the next read. The bytes read
-- are returned beside the connection, and how the call ended.
use flconc.Base.{
  ℕ, ◌*◌, ◌+◌, ◌-◌, ◌^◌, ◌<◌, ap, true, length-append, ◌≤◌, ◌≡◌, refl, sym, ◌∙◌, Bool, Bytes, List,
  [], ◌∷◌, ◌++◌, Option, none, some, if◌then◌else◌, ◌>>=◌, ◌||◌, ◌==◌, ltb, length, is_empty,
  Returns, arith, take_all, le→ltb, append_assoc, append-nil, Bool-cases, inl, inr, subst,
}
use flconc.Base.Int.{pos, sub_ℕ_of_le, pos_part}
use flconc.Tcp.Buffer.{TcpBuffer, int_size, write_able, resize_buffer, recycle_write}
use flconc.Tcp.Buffer.Refine.{Holds, Holds-length, resize-Holds, int_size-eq}
use flconc.Tcp.Buffer.Reads.{filled, recycle_write-Holds}
use flconc.Tcp.Connection.{TcpConnection, is_shut, is_zero, is_closed, clear_client}

-- An answer of `read_hook`, and `m_is_over_time` behind it. No bytes are `rt <= 0`.
pub record Read : Type 0 where
  pub read : ℕ → Bytes
  pub is_over_time : Bool

-- How `input` ends: it returned at once; it waits in `read_hook`; the time ran out; the peer closed,
-- and the coroutine has yielded for good; or all was read, and the slot of a server's connection
-- is refreshed.
pub data InputEnd : Type 0 where
  skipped waits timed_out peer_closed all_read : InputEnd

-- `if (writeAble() == 0) resizeBuffer(2 * getSize())`
unfoldable pub make_room : TcpBuffer → Option TcpBuffer
make_room b =
    if is_zero (write_able b)
    then (int_size (2 * length b.m_buffer) >>= resize_buffer b)
    else some b

-- The buffer once the bytes were read: more than asked for would be written past the vector.
unfoldable pub store : TcpBuffer → ℕ → Bytes → Option TcpBuffer
store b read_count bytes =
    if is_empty bytes
    then some b
    else if ltb read_count (length bytes)
    then none
    else recycle_write (filled b bytes) (pos (length bytes))

unfoldable pub read_again :
    Bytes → Option (TcpConnection × Bytes × InputEnd) → Option (TcpConnection × Bytes × InputEnd)
read_again bytes none = none
read_again bytes (some (c, more, e)) = some (c, bytes ++ more, e)

-- Behind the read: the loop ends, or goes on.
unfoldable pub read_on :
    (TcpConnection → Option (TcpConnection × Bytes × InputEnd))
    → ℕ
    → Bytes
    → TcpConnection
    → Option (TcpConnection × Bytes × InputEnd)
read_on loop read_count bytes c =
    if c.m_is_over_time
    then some (c, bytes, timed_out)
    else if is_empty bytes
    then some (c, bytes, peer_closed)
    else if length bytes == read_count
    then read_again bytes (loop c)
    else some (c, bytes, all_read)

-- A round of the loop.
unfoldable pub input_round :
    Read
    → (TcpConnection → Option (TcpConnection × Bytes × InputEnd))
    → TcpConnection
    → Option (TcpConnection × Bytes × InputEnd)
input_round w loop c = do
  b ← make_room c.m_read_buffer
  let read_count = pos_part (write_able b)
  b' ← store b read_count (w.read read_count)
  read_on loop read_count (w.read read_count)
      (record c { m_read_buffer = b'; m_is_over_time = w.is_over_time })

unfoldable pub input_loop : List Read → TcpConnection → Option (TcpConnection × Bytes × InputEnd)
input_loop [] c = some (c, [], waits)
input_loop (w ∷ ws) c = input_round w (input_loop ws) c

-- `if (close_flag) clearClient()`
unfoldable pub end_input : TcpConnection × Bytes × InputEnd → TcpConnection × Bytes × InputEnd
end_input (c, bytes, peer_closed) = (clear_client c, bytes, peer_closed)
end_input (c, bytes, other) = (c, bytes, other)

unfoldable pub input : List Read → TcpConnection → Option (TcpConnection × Bytes × InputEnd)
input ws c =
    if c.m_is_over_time || is_shut c.m_state
    then some (c, [], skipped)
    else do r ← input_loop ws c; some (end_input r)

-- The system never returns more bytes than it is asked for.
abbrev pub AtMost : List Read → Type 0
AtMost [] = Unit {0}
AtMost (w ∷ ws) = ((n : ℕ) → length (w.read n) ≤ n) × AtMost ws

-- The answers are of no more than so many bytes in all, whatever is asked for.
abbrev pub InAll : ℕ → List Read → Type 0
InAll k [] = Unit {0}
InAll k (w ∷ ws) = (n : ℕ) → (length (w.read n) ≤ k) × InAll (k - length (w.read n)) ws

-- `input` has appended to the read buffer exactly what it read, and touched nothing it should not.
abbrev Appends : Bytes → TcpConnection → TcpConnection × Bytes × InputEnd → Type 0
Appends xs c r =
    Holds r.0.m_read_buffer (xs ++ r.1)
    × (r.0.m_write_buffer ≡ c.m_write_buffer)
    × (r.0.m_reply_datas ≡ c.m_reply_datas)

-- A full buffer is as long as its write index says.
full-small :
    {b : TcpBuffer} {xs : Bytes}
    → 2 * b.m_write_index < 2 ^ 31
    → Holds b xs
    → is_zero (write_able b) ≡ true
    → 2 * length b.m_buffer < 2 ^ 31
full-small {b} {xs} small h e =
    let n : ℕ = length b.m_buffer - b.m_write_index in
    let is : is_zero (pos n) ≡ true =
      ap is_zero (sym (sub_ℕ_of_le (length b.m_buffer) b.m_write_index h.inside)) ∙ e in
    ground (arith, is, small, h.inside)

make_room-Holds :
    {b : TcpBuffer} {xs : Bytes}
    → 2 * b.m_write_index < 2 ^ 31
    → Holds b xs
    → Returns (make_room b) (λ b'. Holds b' xs × (b'.m_read_index ≤ b.m_read_index))
unfolding make_room
make_room-Holds {b} {xs} small h = elim (Bool-cases (is_zero (write_able b))) [
  | inl e ↦
      let (b', p, q) = resize-Holds (2 * length b.m_buffer) h in
      (
        b',
        rw (e, int_size-eq (2 * length b.m_buffer) (full-small small h e)) p,
        (
          subst (Holds b')
              (take_all (2 * length b.m_buffer) xs (omega (arith, Holds-length h, h.inside))) q.0,
          omega (arith, q.2),
        ),
      )
  | inr e ↦ (b, (rw e refl), (h, omega arith))
]

pub store-Holds :
    {b : TcpBuffer} {xs : Bytes} (n : ℕ) (bytes : Bytes)
    → Holds b xs
    → length bytes ≤ n
    → write_able b ≡ pos n
    → Returns (store b n bytes) (λ b'. Holds b' (xs ++ bytes) × (b'.m_read_index ≤ b.m_read_index))
unfolding store
store-Holds {b} {xs} n [] h l e = (b, refl, (subst (Holds b) (sym (append-nil xs)) h, omega arith))
store-Holds {b} {xs} n (y ∷ ys) h l e =
    rw (le→ltb n (length (y ∷ ys)) l) (recycle_write-Holds (y ∷ ys) h (ground (arith, h.inside)))

read_on-Appends :
    (loop : TcpConnection → Option (TcpConnection × Bytes × InputEnd)) (n : ℕ) (xs bytes : Bytes)
    (c : TcpConnection)
    → Holds c.m_read_buffer (xs ++ bytes)
    → Returns (loop c) (Appends (xs ++ bytes) c)
    → Returns (read_on loop n bytes c) (Appends xs c)
unfolding read_on read_again
read_on-Appends loop n xs bytes c h (r, e, q) = elim (Bool-cases c.m_is_over_time) [
  | inl t ↦ ((c, bytes, timed_out), simp t, (h, refl, refl))
  | inr t ↦ elim (Bool-cases (is_empty bytes)) [
    | inl z ↦ ((c, bytes, peer_closed), simp (t, z), (h, refl, refl))
    | inr z ↦ elim (Bool-cases (length bytes == n)) [
      | inl a ↦ (
        (r.0, bytes ++ r.1, r.2),
        simp (t, z, a, e),
        (subst (Holds r.0.m_read_buffer) (append_assoc xs bytes r.1) q.0, q.1, q.2),
      )
      | inr a ↦ ((c, bytes, all_read), simp (t, z, a), (h, refl, refl))
    ]
  ]
]

pub room-pos :
    {b : TcpBuffer} {xs : Bytes} → Holds b xs → write_able b ≡ pos (pos_part (write_able b))
room-pos {b} h = rw (sub_ℕ_of_le (length b.m_buffer) b.m_write_index h.inside) refl

pub input_round-on :
    (w : Read) (loop : TcpConnection → Option (TcpConnection × Bytes × InputEnd))
    (c : TcpConnection) (b b' : TcpBuffer)
    → make_room c.m_read_buffer ≡ some b
    → store b (pos_part (write_able b)) (w.read (pos_part (write_able b))) ≡ some b'
    → input_round w loop c
      ≡ read_on loop
          (pos_part (write_able b))
          (w.read (pos_part (write_able b)))
          (record c { m_read_buffer = b'; m_is_over_time = w.is_over_time })
unfolding input_round
input_round-on w loop c b b' e f = rw (e, f) refl

input_loop-Appends :
    (ws : List Read) (xs : Bytes) (k : ℕ) (c : TcpConnection)
    → AtMost ws
    → InAll k ws
    → 2 * (c.m_read_buffer.m_write_index + k) < 2 ^ 31
    → Holds c.m_read_buffer xs
    → Returns (input_loop ws c) (Appends xs c)
unfolding input_loop
input_loop-Appends [] xs k c m t l h =
    ((c, [], waits), refl, (subst (Holds c.m_read_buffer) (sym (append-nil xs)) h, refl, refl))
input_loop-Appends (w ∷ ws) xs k c m t l h =
    let (b, p, (held, back)) = make_room-Holds (omega (arith, l)) h in
    let n : ℕ = pos_part (write_able b) in
    let (b', p', (held', back')) = store-Holds n (w.read n) held (m.0 n) (room-pos held) in
    let c' : TcpConnection = record c { m_read_buffer = b'; m_is_over_time = w.is_over_time } in
    let (r, e, q) = read_on-Appends (input_loop ws) n xs (w.read n) c' held' (
      input_loop-Appends ws (xs ++ w.read n) (k - length (w.read n)) c' m.1 (t n).1
        (omega (
          arith,
          l,
          (t n).0,
          back,
          back',
          Holds-length h,
          Holds-length held',
          length-append xs (w.read n),
        ))
        held') in
    (r, input_round-on w (input_loop ws) c b b' p p' ∙ e, q)

end_input-Appends :
    (xs : Bytes) (c : TcpConnection) (r : TcpConnection × Bytes × InputEnd)
    → Appends xs c r
    → Appends xs c (end_input r)
unfolding end_input clear_client
end_input-Appends xs c (d, bytes, peer_closed) (h, v, w) = elim (Bool-cases (is_closed d.m_state)) [
  | inl s ↦ rw s (h, v, w)
  | inr s ↦ rw s (h, v, w)
]
end_input-Appends xs c (d, bytes, skipped) q = q
end_input-Appends xs c (d, bytes, waits) q = q
end_input-Appends xs c (d, bytes, timed_out) q = q
end_input-Appends xs c (d, bytes, all_read) q = q

-- Whatever `read_hook` returns, as long as it is never more than was asked for, and as twice the write
-- index and the bytes read in all are below 2 ^ 31, `input` does not touch memory outside the read
-- buffer; on every branch the unread bytes are those from before with exactly
-- what was read behind them, and the write buffer and the replies are as they were.
pub input-Appends :
    (ws : List Read) (xs : Bytes) (k : ℕ) (c : TcpConnection)
    → AtMost ws
    → InAll k ws
    → 2 * (c.m_read_buffer.m_write_index + k) < 2 ^ 31
    → Holds c.m_read_buffer xs
    → Returns (input ws c) (λ r.
      Holds r.0.m_read_buffer (xs ++ r.1)
      × (r.0.m_write_buffer ≡ c.m_write_buffer)
      × (r.0.m_reply_datas ≡ c.m_reply_datas))
unfolding input
input-Appends ws xs k c m t l h = elim (Bool-cases (c.m_is_over_time || is_shut c.m_state)) [
  | inl s ↦ (
    (c, [], skipped),
    rw s refl,
    (subst (Holds c.m_read_buffer) (sym (append-nil xs)) h, refl, refl),
  )
  | inr s ↦
      let (r, e, q) = input_loop-Appends ws xs k c m t l h in
      (end_input r, rw (s, e) refl, end_input-Appends xs c r q)
]
