-- ===== src/Flconcpb/Dispatch/Answer.antt =====
-- flconc/net/flconcpb/flconcpb_rpc_dispatcher.cc: every request that names a service gets one reply.
use flconc.Base.{
  ℕ, ◌^◌, ◌<◌, ◌≤◌, ◌+◌, ◌≡◌, ◌≢◌, refl, ap, true, false, Bytes, List, [], ◌∷◌, ◌++◌, Option, none,
  some, ◌==◌, is_empty, is_empty-long, length, Returns, arith, inl, inr, ◌⊎◌, Bool-cases,
  Option-cases, lt→ltb,
}
use flconc.Base.Int.{pos}
use flconc.Comm.MsgReq.{MsgReqUtil}
use flconc.Tcp.Buffer.{TcpBuffer}
use flconc.Tcp.Buffer.Refine.{Holds, HasRoom, write-Holds}
use flconc.Flconcpb.Data.{FlconcPbStruct}
use flconc.Flconcpb.Encode.{
  package_size, pack, encoded, encode, encode_pb_data, with_msg_req, finish_encode,
}
use flconc.Flconcpb.Dispatch.{
  Service, Entry, split_at_dot, parse_service_full_name, find_service, called, answer_method,
  answer_service, answer_parsed, answer, start_reply, dispatch,
}

abbrev pub NoDot : Bytes → Type 0
NoDot [] = Unit {0}
NoDot (c ∷ cs) = (c ≢ b'.') × NoDot cs

split_at_dot-append :
    (service method : Bytes)
    → NoDot service
    → split_at_dot (service ++ (b'.' ∷ method)) ≡ some (service, method)
unfolding split_at_dot
split_at_dot-append [] method h = refl
split_at_dot-append (c ∷ service) method h =
    let other : (c == b'.') ≡ false = ground (arith, h.0) in
    rw (other, split_at_dot-append service method h.1)

split_at_dot-NoDot : (name : Bytes) → NoDot name → split_at_dot name ≡ none
unfolding split_at_dot
split_at_dot-NoDot [] h = refl
split_at_dot-NoDot (c ∷ name) h =
    let other : (c == b'.') ≡ false = ground (arith, h.0) in rw (other, split_at_dot-NoDot name h.1)

-- `parseServiceFullName` splits a full name at its first dot, whatever the method is, and refuses a
-- name that has none.
pub parse_service_full_name-append :
    (service method : Bytes)
    → NoDot service
    → (parse_service_full_name (service ++ (b'.' ∷ method)) ≡ some (service, method))
      × (parse_service_full_name service ≡ none)
unfolding parse_service_full_name split_at_dot
parse_service_full_name-append [] method h = (refl, refl)
parse_service_full_name-append (c ∷ service) method h =
    (split_at_dot-append (c ∷ service) method h, split_at_dot-NoDot (c ∷ service) h)

-- The method of a registered service was called with the payload, and returned these bytes.
unfoldable pub Served : List Entry → FlconcPbStruct → Bytes → Type 0
Served services d bytes =
    (name method : Bytes) × (service : Service) × (parse_service_full_name d.service_full_name
      ≡ some (name, method))
    × (find_service name services ≡ some service)
    × (service.find_method method ≡ true)
    × (service.parses method d.pb_data ≡ true)
    × (service.respond method d.pb_data ≡ some bytes)

-- The reply carries what the service returned and no error, or an error and no payload.
abbrev pub Verdict : Type 0 → FlconcPbStruct → Type 0
Verdict Ok r = Ok × (r.err_code ≡ pos 0) ⊎ (r.err_code ≢ pos 0) × (r.pb_data ≡ [])

-- A reply as `dispatch` starts it.
abbrev pub Fresh : FlconcPbStruct → FlconcPbStruct → Type 0
Fresh d r =
    (r.err_code ≡ pos 0)
    × (r.pb_data ≡ [])
    × (r.msg_req ≡ d.msg_req)
    × (r.service_full_name ≡ d.service_full_name)

-- The reply goes to the same request.
abbrev pub Replies : FlconcPbStruct → FlconcPbStruct → Type 0
Replies d r = (r.msg_req ≡ d.msg_req) × (r.service_full_name ≡ d.service_full_name)

abbrev Responds : Service → Bytes → Bytes → Bytes → Type 0
Responds service method pb_data bytes =
    (service.find_method method ≡ true)
    × (service.parses method pb_data ≡ true)
    × (service.respond method pb_data ≡ some bytes)

not_zero : (n : ℕ) → 0 < n → pos n ≢ pos 0
not_zero n h e = ground (arith, h, e)

answer_method-Verdict :
    (service : Service) (method pb_data : Bytes) (d reply : FlconcPbStruct)
    → Fresh d reply
    → Verdict
        (Responds service method pb_data (answer_method service method pb_data reply).pb_data)
        (answer_method service method pb_data reply)
      × Replies d (answer_method service method pb_data reply)
unfolding answer_method called
answer_method-Verdict service method pb_data d reply (e, b, m, n) =
    elim (Bool-cases (service.find_method method)) [
      | inr f ↦ rw f (inr (not_zero 10000009 (omega arith), b), (m, n))
      | inl f ↦ elim (Bool-cases (service.parses method pb_data)) [
        | inr g ↦ rw (f, g) (inr (not_zero 10000004 (omega arith), b), (m, n))
        | inl g ↦ elim (Option-cases (service.respond method pb_data)) [
          | inl h ↦ rw (f, g, h) (inr (not_zero 10000004 (omega arith), refl), (m, n))
          | inr (bytes, h) ↦ rw (f, g, h) (inl ((refl, refl, refl), e), (m, n))
        ]
      ]
    ]

Verdict-map : {Ok Fine : Type 0} (r : FlconcPbStruct) → (Ok → Fine) → Verdict Ok r → Verdict Fine r
Verdict-map r f (inl (ok, e)) = inl (f ok, e)
Verdict-map r f (inr bad) = inr bad

answer_parsed-Verdict :
    (services : List Entry) (d reply : FlconcPbStruct) (p : Option (Bytes × Bytes))
    → parse_service_full_name d.service_full_name ≡ p
    → Fresh d reply
    → Verdict
        (Served services d (answer_parsed services p d reply).pb_data)
        (answer_parsed services p d reply)
      × Replies d (answer_parsed services p d reply)
unfolding answer_parsed answer_service Served
answer_parsed-Verdict services d reply none p (e, b, m, n) =
    (inr (not_zero 10000010 (omega arith), b), (m, n))
answer_parsed-Verdict services d reply (some (name, method)) p f =
    elim (Option-cases (find_service name services)) [
      | inl g ↦ rw g (inr (not_zero 10000008 (omega arith), f.1), (f.2, f.3))
      | inr (service, g) ↦
          let (v, to) = answer_method-Verdict service method d.pb_data d reply f in
          rw g (
            Verdict-map (answer_method service method d.pb_data reply)
                (λ q. (name, method, service, p, g, q.0, q.1, q.2)) v,
            to,
          )
    ]

pub start_reply-Fresh :
    (d : FlconcPbStruct) (u : MsgReqUtil)
    → 0 < length d.msg_req
    → Fresh d (start_reply d u).0 × ((start_reply d u).1 ≡ u)
unfolding start_reply
start_reply-Fresh d u h = rw (is_empty-long d.msg_req h) ((refl, refl, refl, refl), refl)

-- The reply goes to the request's number and service.
pub answer-Replies :
    (services : List Entry) (d : FlconcPbStruct) (u : MsgReqUtil)
    → 0 < length d.msg_req
    → Replies d (answer services d (start_reply d u).0)
unfolding answer
answer-Replies services d u msg =
    let (fresh, same) = start_reply-Fresh d u msg in
    (answer_parsed-Verdict services d (start_reply d u).0
      (parse_service_full_name d.service_full_name) refl fresh).1

pub encode-long :
    {out : TcpBuffer} {xs : Bytes} (r : FlconcPbStruct) (u : MsgReqUtil)
    → Holds out xs
    → 0 < length r.service_full_name
    → 0 < length r.msg_req
    → package_size r < 2 ^ 31
    → HasRoom out (length (pack r))
    → Returns (encode out r u) (λ s.
      Holds s.0 (xs ++ pack r)
      × (s.2 ≡ u)
      × (s.1 ≡ encoded r)
      × (s.0.m_write_index ≤ out.m_write_index + length (pack r)))
unfolding encode encode_pb_data with_msg_req finish_encode
encode-long {out} {xs} r u h name msg small room =
    let (out', e, (w, up)) = write-Holds (pack r) room h in
    (
      (out', encoded r, u),
      rw (
        is_empty-long r.service_full_name name,
        is_empty-long r.msg_req msg,
        lt→ltb (package_size r) (2 ^ 31) small,
        e,
      ),
      (w, refl, refl, up),
    )

-- A request with a service name and a message number, whose reply is shorter than 2 ^ 31 and has room in the out buffer, is answered
-- on every branch by one package behind what the out buffer holds. It goes to the same message number
-- and service name; and it either carries what the method of the registered service returned, with no
-- error, or an error and no payload.
pub dispatch-Replies :
    {out : TcpBuffer} {xs : Bytes} (services : List Entry) (d : FlconcPbStruct) (u : MsgReqUtil)
    → Holds out xs
    → 0 < length d.service_full_name
    → 0 < length d.msg_req
    → package_size (answer services d (start_reply d u).0) < 2 ^ 31
    → HasRoom out (length (pack (answer services d (start_reply d u).0)))
    → Returns (dispatch services d out u) (λ s.
      (r : FlconcPbStruct) × Holds s.0 (xs ++ pack r)
      × Replies d r
      × Verdict (Served services d r.pb_data) r)
unfolding dispatch answer
dispatch-Replies {out} {xs} services d u h name msg small room =
    let (fresh, same) = start_reply-Fresh d u msg in
    let reply : FlconcPbStruct = answer services d (start_reply d u).0 in
    let (verdict, to) =
      answer_parsed-Verdict services d (start_reply d u).0
        (parse_service_full_name d.service_full_name) refl fresh in
    let (s, e, q) =
      encode-long reply (start_reply d u).1 h (omega (arith, name, ap length to.1))
        (omega (arith, msg, ap length to.0)) small room in
    (s, e, (reply, q.0, to, verdict))

-- A request without a service name gets no reply: the error that `dispatch` has for it goes through
-- `encode`, which refuses an empty service name, and the out buffer stays as it was.
pub dispatch_unnamed :
    (services : List Entry) (d : FlconcPbStruct) (out : TcpBuffer) (u : MsgReqUtil)
    → d.service_full_name ≡ []
    → Returns (dispatch services d out u) (λ s. (s.0 ≡ out) × (s.1.err_code ≡ pos 10000010))
unfolding dispatch answer answer_parsed parse_service_full_name encode encode_pb_data finish_encode
    start_reply
dispatch_unnamed services d out u e = elim (Bool-cases (is_empty d.msg_req)) [
  | inl m ↦ rw (e, m) (_, refl, (refl, refl))
  | inr m ↦ rw (e, m) (_, refl, (refl, refl))
]
