-- ===== src/Tcp/Buffer/Memory.antt =====
-- flconc/net/tcp/tcp_buffer.cc: what the two uses of `memcpy` return when they stay inside.
use flconc.Base.{
  ℕ, ◌+◌, ◌≤◌, ◌≡◌, ap, ◌∙◌, Bytes, ◌++◌, some, arith, le→leb, length, take, drop, length-append,
  length-take, length-drop, length-replicate,
}
use flconc.Base.Int.{pos}
use flconc.Tcp.Buffer.{copy, put, zeros}

pub length-zeros : (size : ℕ) → length (zeros size) ≡ size
length-zeros size = length-replicate size 0

pub copy-take :
    (xs : Bytes) (i n : ℕ) → i + n ≤ length xs → copy xs i (pos n) ≡ some (take n (drop i xs))
unfolding copy
copy-take xs i n h = rw (le→leb _ _ h)

pub put-append :
    (xs : Bytes) (i : ℕ) (ys : Bytes)
    → i + length ys ≤ length xs
    → put xs i ys ≡ some (take i xs ++ (ys ++ drop (i + length ys) xs))
unfolding put
put-append xs i ys h = rw (le→leb _ _ h)

pub length-put :
    (xs : Bytes) (i : ℕ) (ys : Bytes)
    → i + length ys ≤ length xs
    → length (take i xs ++ (ys ++ drop (i + length ys) xs)) ≡ length xs
length-put xs i ys h = omega (
  arith,
  length-append (take i xs) (ys ++ drop (i + length ys) xs),
  length-append ys (drop (i + length ys) xs),
  length-take i xs (omega arith),
  length-drop (i + length ys) xs,
)

-- A fresh vector of `size` zeros with `ys` copied to its front.
pub put-fresh :
    (size : ℕ) (ys : Bytes)
    → length ys ≤ size
    → put (zeros size) 0 ys ≡ some (ys ++ drop (length ys) (zeros size))
put-fresh size ys h =
    put-append (zeros size) 0 ys (omega (arith, length-zeros size))
    ∙ ap (λ k. some (ys ++ drop k (zeros size))) (omega arith)

pub length-fresh :
    (size : ℕ) (ys : Bytes) → length ys ≤ size → length (ys ++ drop (length ys) (zeros size)) ≡ size
length-fresh size ys h = omega (
  arith,
  length-append ys (drop (length ys) (zeros size)),
  length-drop (length ys) (zeros size),
  length-zeros size,
)
