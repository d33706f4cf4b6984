-- ===== src/Tcp/Connection/Output.antt =====
-- flconc/net/tcp/tcp_connection.cc: `output` sends what the write buffer holds.
use flconc.Base.{
  ℕ, zero, suc, ◌+◌, ◌<◌, ◌≤◌, ◌≡◌, refl, sym, ap, ◌∙◌, Bool, true, false, Bytes, List, [], ◌∷◌,
  ◌++◌, Option, some, ◌||◌, Returns, arith, length, take, drop, take-append-drop, length-drop,
  append-nil,
}
use flconc.Base.Int.{pos, negsuc, ◌+ℤ◌}
use flconc.Tcp.Buffer.{TcpBuffer, read_able, recycle_read}
use flconc.Tcp.Buffer.Refine.{
  Holds, Holds-length, contents, adjust-Holds, read_able-Holds, copy-Holds,
}
use flconc.Tcp.Buffer.Reads.{recycle_read-Holds, recycle_to-inside}
use flconc.Tcp.Connection.{
  TcpConnection, connected, is_connected, Written, sent_bytes, written, is_zero, is_not_positive,
  go_on, output_round, output_loop, output,
}

-- The writes take some bytes each, `n` together, and the time does not run out.
pub data Accepts : List Written → ℕ → Type 0 where
  done : Accepts [] 0
  more :
      {ws : List Written} {n : ℕ} (k : ℕ)
      → 0 < k
      → Accepts ws n
      → Accepts (record { rt = pos k; is_over_time = false } ∷ ws) (k + n)

length-drop_le : (n : ℕ) (xs : Bytes) (m : ℕ) → length xs ≡ n + m → length (drop n xs) ≡ m
length-drop_le n xs m h = omega (arith, length-drop n xs, h)

pub is_zero-pos : (n : ℕ) → 0 < n → is_zero (pos n) ≡ false
is_zero-pos zero h = absurd (omega arith)
is_zero-pos (suc n) h = refl

-- The write of `k` bytes sends them and takes them off the queue.
written-Holds :
    (k : ℕ) (c : TcpConnection) (xs : Bytes)
    → Holds c.m_write_buffer xs
    → k ≤ length xs
    → (sent_bytes c.m_write_buffer (pos k) ≡ some (take k xs))
      × ((b : TcpBuffer) × Holds b (drop k xs)
          × (written (record { rt = pos k; is_over_time = false }) c
              ≡ some (
                record c { m_write_buffer = b; m_is_over_time = false },
                is_not_positive (pos (length (drop k xs))) || false,
              )))
unfolding written sent_bytes
written-Holds k c xs h l =
    let (b, e, q) = recycle_read-Holds k h l in
    (copy-Holds h k l, (b, q, rw (e, read_able-Holds q)))

-- Everything was sent, and the queue is empty.
abbrev Sends : Bytes → TcpConnection × Bytes → Type 0
Sends xs r = (r.1 ≡ xs) × Holds r.0.m_write_buffer []

go_on-Sends :
    (sent ys : Bytes) (loop : TcpConnection → Option (TcpConnection × Bytes)) (c : TcpConnection)
    → Holds c.m_write_buffer ys
    → Returns (loop c) (Sends ys)
    → Returns (go_on sent loop (c, is_not_positive (pos (length ys)) || false)) (Sends (sent ++ ys))
unfolding go_on
go_on-Sends sent [] loop c h r = ((c, sent), refl, (sym (append-nil sent), h))
go_on-Sends sent (y ∷ ys) loop c h (r, e, q) =
    ((r.0, sent ++ r.1), rw e, (ap (λ t. sent ++ t) q.0, q.1))

-- The loop goes into a round.
output_loop-round :
    (w : Written) (ws : List Written) (c : TcpConnection) (xs : Bytes)
    → Holds c.m_write_buffer xs
    → 0 < length xs
    → c.m_state ≡ connected
    → output_loop (w ∷ ws) c ≡ output_round w (output_loop ws) c
unfolding output_loop
output_loop-round w ws c xs h p s =
    let open_ : is_connected c.m_state ≡ true = ap is_connected s in
    let some_ : is_zero (read_able c.m_write_buffer) ≡ false =
      ap is_zero (read_able-Holds h) ∙ is_zero-pos (length xs) p in
    simp (open_, some_)

output_round-go_on :
    (w : Written) (loop : TcpConnection → Option (TcpConnection × Bytes)) (c : TcpConnection)
    (sent : Bytes) (r : TcpConnection × Bool)
    → sent_bytes c.m_write_buffer w.rt ≡ some sent
    → written w c ≡ some r
    → output_round w loop c ≡ go_on sent loop r
unfolding output_round
output_round-go_on w loop c sent r e f = simp (e, f)

output_loop-Sends :
    (ws : List Written) (n : ℕ) (c : TcpConnection) (xs : Bytes)
    → Accepts ws n
    → Holds c.m_write_buffer xs
    → length xs ≡ n
    → c.m_state ≡ connected
    → Returns (output_loop ws c) (Sends xs)
unfolding output_loop output_round
output_loop-Sends [] n c [] done h l s = ((c, []), refl, (refl, h))
output_loop-Sends [] n c (x ∷ xs) done h l s = absurd (omega arith)
output_loop-Sends (w ∷ ws) n c xs (more {n = m} k p a) h l s =
    let (took, at) = written-Holds k c xs h (omega arith) in
    let (b, held, e) = at in
    let c' : TcpConnection = record c { m_write_buffer = b; m_is_over_time = false } in
    let rest = output_loop-Sends ws m c' (drop k xs) a held (length-drop_le k xs m l) s in
    let (r, g, q) = go_on-Sends (take k xs) (drop k xs) (output_loop ws) c' held rest in
    (
      r,
      output_loop-round _ ws c xs h (omega arith) s
          ∙ output_round-go_on _ (output_loop ws) c (take k xs) _ took e
          ∙ g,
      (q.0 ∙ take-append-drop k xs, q.1),
    )

-- On a connected connection whose time has not run out, and whose writes each take some bytes, all
-- of them together, `output` sends exactly the unread bytes of the write buffer, in order, and
-- leaves it empty.
pub output-Sends :
    (ws : List Written) (c : TcpConnection) (xs : Bytes)
    → c.m_state ≡ connected
    → c.m_is_over_time ≡ false
    → Holds c.m_write_buffer xs
    → Accepts ws (length xs)
    → Returns (output ws c) (λ r. (r.1 ≡ xs) × Holds r.0.m_write_buffer [])
unfolding output
output-Sends ws c xs s t h a = simp t (output_loop-Sends ws (length xs) c xs a h refl s)

-- A write that fails with -1 moves the read index of the write buffer back by one, where it can go
-- back: one byte more is unread than before.
pub written_failed :
    (c : TcpConnection) (xs : Bytes) (i : ℕ)
    → Holds c.m_write_buffer xs
    → c.m_write_buffer.m_read_index ≡ i + 1
    → Returns
        (written (record { rt = negsuc 0; is_over_time = false }) c)
        (λ r. read_able r.0.m_write_buffer ≡ pos (length xs + 1))
unfolding written recycle_read
written_failed c xs i h e =
    let b = c.m_write_buffer in
    let back : TcpBuffer = record b { m_read_index = i } in
    let held : Holds back (contents back) = record {
      ordered = omega (arith, h.ordered, e);
      inside = h.inside;
      holds = refl;
    } in
    let (b', p, q) = adjust-Holds held in
    let step : pos b.m_read_index +ℤ negsuc 0 ≡ pos i = ground (arith, e) in
    let inside : i ≤ length b.m_buffer = omega (arith, e, h.ordered, h.inside) in
    (
      (
        record c { m_write_buffer = b'; m_is_over_time = false },
        is_not_positive (read_able b') || false,
      ),
      simp (step, recycle_to-inside b i (λ j. record b { m_read_index = j }) inside, p),
      read_able-Holds q.0 ∙ ap pos (omega (arith, e, Holds-length held, Holds-length h)),
    )
