-- ===== src/Flconcpb/AsyncChannel.antt =====
-- flconc/net/flconcpb/flconcpb_rpc_async_channel.cc: the flags of `FlconcPbRpcAsyncChannel`, `wait`, and the
-- callback that the thread of the call runs in the thread of the caller. Both run in that thread, so
-- each is one step. The call itself is that of the channel.
use flconc.Base.{
  ℕ, ◌+◌, ◌≡◌, refl, Bool, true, false, Option, none, some, if◌then◌else◌, Bytes, Bool-cases, inl,
  inr,
}
use flconc.Base.Int.{ℤ, pos}
use flconc.Comm.MsgReq.{MsgReqUtil, gen_msg_number}
use flconc.Flconcpb.Controller.{FlconcPbRpcController, set_error, set_msg_req}

-- `is_yielded` says whether the caller has yielded in `wait` and not been resumed; `resumes` and `runs`
-- count the resumptions, and the runs of the closure.
pub record AsyncChannel : Type 0 where
  pub m_is_pre_set : Bool
  pub m_is_finished : Bool
  pub m_need_resume : Bool
  pub has_closure : Bool
  pub is_yielded : Bool
  pub resumes : ℕ
  pub runs : ℕ

unfoldable pub new_channel : AsyncChannel
new_channel = record {
  m_is_pre_set = false;
  m_is_finished = false;
  m_need_resume = false;
  has_closure = false;
  is_yielded = false;
  resumes = 0;
  runs = 0;
}

unfoldable pub save_callee : Bool → AsyncChannel → AsyncChannel
save_callee closure a = record a { m_is_pre_set = true; has_closure = closure }

-- `setFinished`, whatever its argument.
unfoldable pub set_finished : Bool → AsyncChannel → AsyncChannel
set_finished value a = record a { m_is_finished = true }

unfoldable pub wait : AsyncChannel → AsyncChannel
wait a =
    if a.m_is_finished
    then record a { m_need_resume = true }
    else record a { m_need_resume = true; is_yielded = true }

unfoldable pub run_closure : AsyncChannel → AsyncChannel
run_closure a = if a.has_closure then record a { runs = a.runs + 1 } else a

unfoldable pub resume_caller : AsyncChannel → AsyncChannel
resume_caller a =
    if a.m_need_resume then record a { is_yielded = false; resumes = a.resumes + 1 } else a

-- `call_back`
unfoldable pub call_back : AsyncChannel → AsyncChannel
call_back a = resume_caller (set_finished true (run_closure a))

abbrev pub error_not_set_async_pre_call : ℤ
error_not_set_async_pre_call = pos 10000011

-- `CallMethod`: the channel, the controller, the generator, and whether a coroutine is given the call.
-- The number is that of the run time, or a new one where there is no run time.
unfoldable pub call_method :
    Bytes
    → Option Bytes
    → FlconcPbRpcController
    → MsgReqUtil
    → AsyncChannel
    → AsyncChannel × FlconcPbRpcController × MsgReqUtil × Bool
call_method text number c u a =
    if a.m_is_pre_set
    then numbered number
    else (set_finished true a, set_error error_not_set_async_pre_call text c, u, false)
  where
    numbered : Option Bytes → AsyncChannel × FlconcPbRpcController × MsgReqUtil × Bool
    numbered none = (a, set_msg_req (gen_msg_number u).0 c, (gen_msg_number u).1, true)
    numbered (some n) = (a, set_msg_req n c, u, true)

-- The caller is not left waiting, the closure has run once where there is one, and the channel is
-- finished.
abbrev pub IsDone : AsyncChannel → AsyncChannel → Type 0
IsDone a b =
    (b.is_yielded ≡ false)
    × (b.m_is_finished ≡ true)
    × (b.runs ≡ (if a.has_closure then a.runs + 1 else a.runs))

-- Whether the caller waits before the callback runs or after it, the caller goes on: on a channel that
-- is not finished and whose caller has not yielded, either order ends with the caller not
-- waiting, the channel finished, and the closure run once where there is one.
pub wait-call_back :
    (a : AsyncChannel)
    → a.m_is_finished ≡ false
    → a.is_yielded ≡ false
    → IsDone a (call_back (wait a)) × IsDone a (wait (call_back a))
unfolding wait call_back run_closure set_finished resume_caller
wait-call_back a f y = elim (Bool-cases a.has_closure) [
  | inl c ↦ elim (Bool-cases a.m_need_resume) [
    | inl n ↦ simp (f, y, c, n) ((refl, refl, refl), (refl, refl, refl))
    | inr n ↦ simp (f, y, c, n) ((refl, refl, refl), (refl, refl, refl))
  ]
  | inr c ↦ elim (Bool-cases a.m_need_resume) [
    | inl n ↦ simp (f, y, c, n) ((refl, refl, refl), (refl, refl, refl))
    | inr n ↦ simp (f, y, c, n) ((refl, refl, refl), (refl, refl, refl))
  ]
]
