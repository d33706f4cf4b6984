-- ===== src/Examples/Comm.antt =====
-- flconc/comm/msg_req.cc on numbers of three digits.
use flconc.Base.{◌+◌, ◌≡◌, refl, [], ◌∷◌, map, arith}
use flconc.Comm.MsgReq.{MsgReqUtil, increment}
use flconc.Comm.MsgReq.Increment.{value, cons, nil, nines}
use flconc.Comm.MsgReq.Count.{Ready, draws, count_up, draws-count_up}

abbrev at_129 : MsgReqUtil
at_129 = record {
  m_msg_req_len = 3;
  t_msg_req_nu = b'1' ∷ b'2' ∷ b'9' ∷ [];
  t_max_msg_req_nu = nines 3;
  urandom = [];
}

at_129-Ready : Ready at_129
at_129-Ready = record {
  number =
      cons (omega arith, omega arith)
        (cons (omega arith, omega arith) (cons (omega arith, omega arith) nil));
  sized = refl;
  nonempty = omega arith;
  top = refl;
}

draws-count_up_example : map value (draws 5 at_129) ≡ count_up (value at_129.t_msg_req_nu + 1) 5
draws-count_up_example = draws-count_up 5 at_129 at_129-Ready (unfold value in omega arith)

carries : increment at_129.t_msg_req_nu ≡ b'1' ∷ b'3' ∷ b'0' ∷ []
unfolding increment
carries = refl
