-- ===== src/Examples/Server.antt =====
-- flconc/net: the accept loop of a server, an address and a channel, at concrete inputs.
use flconc.Base.{
  ℕ, ◌≡◌, refl, true, false, Bytes, List, [], ◌∷◌, Option, some, Returns, length, arith, inl,
}
use flconc.Base.Int.{ℤ, pos, negsuc}
use flconc.Tcp.IoThread.{new_pool, in_turn}
use flconc.Tcp.Server.{TcpServer, flconc_pb_protocal}
use flconc.Tcp.Server.Clients.{accepted, HandedOver}
use flconc.Tcp.Acceptor.{Answers, af_inet, start}
use flconc.Tcp.Acceptor.Opened.{attempts, descriptors, calls_of, start-HandedOver}
use flconc.Comm.StringUtil.{find_first_of}
use flconc.Http.Message.{atoi, strtol, read_signed, read_digits}
use flconc.Net.Address.{check_valid_ip_addr, check_valid_at, valid_parts}
use flconc.Flconcpb.AsyncChannel.{AsyncChannel, wait, call_back, IsDone, wait-call_back}

abbrev server : TcpServer
server = record {
  m_clients = [];
  m_io_pool = new_pool 2;
  m_tcp_counts = 0;
  m_is_stop_accept = false;
  m_protocal_type = flconc_pb_protocal;
  added = [];
}

abbrev arrivals : List (ℤ × ℕ)
arrivals = (pos 7, 1) ∷ (negsuc 0, 2) ∷ (pos 8, 3) ∷ (pos 9, 4) ∷ []

abbrev answers : Answers
answers = record { fd = pos 3; bind = pos 0; listen = pos 0 }

start-HandedOver_example : Returns (start af_inet answers arrivals server) (λ r.
    (r.0.calls ≡ calls_of af_inet (pos 3) (attempts (descriptors arrivals)))
    × HandedOver
        (in_turn 2 0 (length (accepted (descriptors arrivals))))
        (accepted (descriptors arrivals))
        server
        r.1)
start-HandedOver_example =
    start-HandedOver af_inet answers arrivals 2 server (inl refl) refl refl refl (omega arith) refl
      refl

abbrev any_host : Bytes → Option ℕ
any_host ip = some 1

-- `h:65536`
abbrev address : Bytes
address = b'h' ∷ b':' ∷ b'6' ∷ b'5' ∷ b'5' ∷ b'3' ∷ b'6' ∷ []

address_valid : check_valid_ip_addr any_host address ≡ true
unfolding check_valid_ip_addr check_valid_at valid_parts find_first_of atoi strtol read_signed
    read_digits
address_valid = refl

abbrev channel : AsyncChannel
channel = record {
  m_is_pre_set = true;
  m_is_finished = false;
  m_need_resume = false;
  has_closure = true;
  is_yielded = false;
  resumes = 0;
  runs = 0;
}

wait-call_back_example :
    IsDone channel (call_back (wait channel)) × IsDone channel (wait (call_back channel))
wait-call_back_example = wait-call_back channel refl refl
