-- ===== src/Tcp/Buffer.antt =====
-- flconc/net/tcp/tcp_buffer.h and tcp_buffer.cc: the byte buffer with a read and a write index.
-- Indices and sizes are the `int`s of the code, exact below 2 ^ 31; `none` is an access outside the
-- vector, or a copy or a vector of a negative size.
pub mod Memory
pub mod Refine
pub mod Reads
use flconc.Base.{
  ℕ, zero, ◌+◌, ◌*◌, ◌/◌, ◌^◌, Bytes, [], ◌++◌, Option, none, some, ltb, leb, if◌then◌else◌, ◌>>=◌,
  length, take, drop, replicate,
}
use flconc.Base.Int.{ℤ, pos, negsuc, sub_ℕ, ltb_ℤ, min_ℤ, ◌+ℤ◌}

pub record TcpBuffer : Type 0 where
  pub m_read_index : ℕ
  pub m_write_index : ℕ
  pub m_buffer : Bytes

-- What a vector of `char`s holds when it is made.
abbrev pub zeros : ℕ → Bytes
zeros size = replicate size 0

-- The bytes that `memcpy` reads from `&xs[i]`.
unfoldable pub copy : Bytes → ℕ → ℤ → Option Bytes
copy xs i (pos n) = if leb (i + n) (length xs) then some (take n (drop i xs)) else none
copy xs i (negsuc n) = none

-- The vector after `memcpy` has written `ys` at `&xs[i]`.
unfoldable pub put : Bytes → ℕ → Bytes → Option Bytes
put xs i ys =
    if leb (i + length ys) (length xs)
    then some (take i xs ++ (ys ++ drop (i + length ys) xs))
    else none

unfoldable pub init : ℕ → TcpBuffer
init size = record { m_read_index = 0; m_write_index = 0; m_buffer = zeros size }

-- The indices may stand the wrong way round after `recycle_read`, so the difference has a sign.
abbrev pub read_able : TcpBuffer → ℤ
read_able b = sub_ℕ b.m_write_index b.m_read_index

abbrev pub write_able : TcpBuffer → ℤ
write_able b = sub_ℕ (length b.m_buffer) b.m_write_index

-- A new vector of `size` bytes that takes what was read from the old one.
unfoldable pub swap_in : ℕ → Bytes → Option TcpBuffer
unfolding put
swap_in size read = do
  tmp ← put (zeros size) 0 read
  some (record { m_read_index = 0; m_write_index = length read; m_buffer = tmp })

unfoldable pub resize_buffer : TcpBuffer → ℕ → Option TcpBuffer
unfolding copy swap_in min_ℤ
resize_buffer b size = do
  read ← copy b.m_buffer b.m_read_index (min_ℤ (pos size) (read_able b))
  swap_in size read

-- A size as an `int`: one that is too large is undefined, in practice negative, which a vector refuses.
unfoldable pub int_size : ℕ → Option ℕ
int_size n = if ltb n (2 ^ 31) then some n else none

-- `(int) (1.5 * (m_write_index + size))`
abbrev pub grown : TcpBuffer → ℕ → Option ℕ
grown b size = int_size ((b.m_write_index + size) * 3 / 2)

unfoldable pub write_at_end : TcpBuffer → Bytes → Option TcpBuffer
unfolding put
write_at_end b buf = do
  m_buffer ← put b.m_buffer b.m_write_index buf
  some (record b { m_write_index = b.m_write_index + length buf; m_buffer = m_buffer })

-- The list holds the `size` bytes behind `buf`.
unfoldable pub write_to_buffer : TcpBuffer → Bytes → Option TcpBuffer
unfolding resize_buffer write_at_end
write_to_buffer b buf = do
  b' ←
      if ltb_ℤ (write_able b) (pos (length buf))
      then grown b (length buf) >>= resize_buffer b
      else some b
  write_at_end b' buf

unfoldable pub adjust_buffer : TcpBuffer → Option TcpBuffer
unfolding copy swap_in
adjust_buffer b =
    if ltb (length b.m_buffer / 3) b.m_read_index
    then copy b.m_buffer b.m_read_index (read_able b) >>= swap_in (length b.m_buffer)
    else some b

-- The branches of `readFromBuffer` on the value of `readAble()`.
unfoldable pub read_some : TcpBuffer → Bytes → ℤ → ℤ → Option (Bytes × TcpBuffer)
read_some b re size (pos zero) = some (re, b)
read_some b re size readable = do
  tmp ← copy b.m_buffer b.m_read_index (min_ℤ readable size)
  b' ← adjust_buffer (record b { m_read_index = b.m_read_index + length tmp })
  some (tmp, b')

-- The new value of the out-parameter `re`, and the buffer.
unfoldable pub read_from_buffer : TcpBuffer → Bytes → ℤ → Option (Bytes × TcpBuffer)
unfolding read_some
read_from_buffer b re size = read_some b re size (read_able b)

unfoldable pub clear_buffer : TcpBuffer → TcpBuffer
clear_buffer b = record { m_read_index = 0; m_write_index = 0; m_buffer = [] }

-- A step back past index 0 is a fault: the next access would be before the vector.
unfoldable pub recycle_to : TcpBuffer → ℤ → (ℕ → TcpBuffer) → Option TcpBuffer
recycle_to b (negsuc _) move = none
recycle_to b (pos j) move = if ltb (length b.m_buffer) j then some b else adjust_buffer (move j)

unfoldable pub recycle_read : TcpBuffer → ℤ → Option TcpBuffer
recycle_read b index =
    recycle_to b (pos b.m_read_index +ℤ index) (λ j. record b { m_read_index = j })

unfoldable pub recycle_write : TcpBuffer → ℤ → Option TcpBuffer
recycle_write b index =
    recycle_to b (pos b.m_write_index +ℤ index) (λ j. record b { m_write_index = j })

unfoldable pub get_buffer_string : TcpBuffer → Option Bytes
unfolding copy
get_buffer_string b = copy b.m_buffer b.m_read_index (read_able b)
