-- ===== src/Examples/Buffer.antt =====
-- flconc/net/tcp/tcp_buffer.cc on a buffer of eight bytes.
use flconc.Base.{◌≡◌, refl, Bytes, [], ◌∷◌, ◌++◌, ◌+◌, ◌≤◌, arith, length, some, Returns}
use flconc.Tcp.Buffer.{TcpBuffer, init, int_size, write_to_buffer}
use flconc.Tcp.Buffer.Refine.{Holds, Holds-front, write-Holds}

abbrev unread : Bytes
unread = b'a' ∷ b'b' ∷ b'c' ∷ []

abbrev room : Bytes
room = 0 ∷ 0 ∷ 0 ∷ 0 ∷ 0 ∷ []

abbrev eight : TcpBuffer
eight = record { m_read_index = 0; m_write_index = 3; m_buffer = unread ++ room }

eight-Holds : Holds eight unread
eight-Holds = Holds-front unread room

abbrev more : Bytes
more = b'd' ∷ b'e' ∷ []

write-Holds_example :
    Returns
      (write_to_buffer eight more)
      (λ b'. Holds b' (unread ++ more) × (b'.m_write_index ≤ eight.m_write_index + length more))
write-Holds_example = write-Holds more (omega arith) eight-Holds

-- A write into a full buffer makes it half as large again as what it needs.
write_grows :
    write_to_buffer (init 2) unread
    ≡ some (record { m_read_index = 0; m_write_index = 3; m_buffer = unread ++ 0 ∷ [] })
unfolding write_to_buffer init int_size
write_grows = refl
