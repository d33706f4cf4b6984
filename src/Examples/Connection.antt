-- ===== src/Examples/Connection.antt =====
-- flconc/net/tcp/tcp_connection.cc on a connection with three bytes to send.
use flconc.Base.{◌≡◌, refl, false, Bytes, List, [], ◌∷◌, ◌++◌, arith, Returns}
use flconc.Base.Int.{pos}
use flconc.Tcp.Buffer.{init}
use flconc.Tcp.Buffer.Refine.{Holds, Holds-front}
use flconc.Tcp.Connection.{TcpConnection, connected, Written, output}
use flconc.Tcp.Connection.Output.{Accepts, done, more, output-Sends}

abbrev unread : Bytes
unread = b'a' ∷ b'b' ∷ b'c' ∷ []

abbrev room : Bytes
room = 0 ∷ 0 ∷ []

abbrev connection : TcpConnection
connection = record {
  m_state = connected;
  m_read_buffer = init 8;
  m_write_buffer = record { m_read_index = 0; m_write_index = 3; m_buffer = unread ++ room };
  m_stop = false;
  m_is_over_time = false;
  m_reply_datas = [];
  closes = 0;
}

abbrev writes : List Written
writes =
    record { rt = pos 1; is_over_time = false } ∷ record { rt = pos 2; is_over_time = false } ∷ []

writes-Accepts : Accepts writes 3
writes-Accepts = more 1 (omega arith) (more 2 (omega arith) done)

output-Sends_example :
    Returns (output writes connection) (λ r. (r.1 ≡ unread) × Holds r.0.m_write_buffer [])
output-Sends_example =
    output-Sends writes connection unread refl refl (Holds-front unread room) writes-Accepts
