-- ===== src/Flconcpb/Controller.antt =====
-- flconc/net/flconcpb/flconcpb_rpc_controller.h and flconcpb_rpc_controller.cc: the fields of a call and
-- their setters. An address is a number, with `none` for null. `Reset`, `StartCancel` and
-- `NotifyOnCancel` do nothing, and `IsCanceled` is false, as `m_is_cancled` is never set.
use flconc.Base.{ℕ, ◌≡◌, refl, Bool, true, false, Bytes, Option, none, []}
use flconc.Base.Int.{ℤ, pos}

pub record FlconcPbRpcController : Type 0 where
  pub m_error_code : ℤ
  pub m_error_info : Bytes
  pub m_msg_req : Bytes
  pub m_is_failed : Bool
  pub m_peer_addr : Option ℕ
  pub m_local_addr : Option ℕ
  pub m_timeout : ℤ
  pub m_method_name : Bytes
  pub m_full_name : Bytes

abbrev pub new_controller : FlconcPbRpcController
new_controller = record {
  m_error_code = pos 0;
  m_error_info = [];
  m_msg_req = [];
  m_is_failed = false;
  m_peer_addr = none;
  m_local_addr = none;
  m_timeout = pos 5000;
  m_method_name = [];
  m_full_name = [];
}

unfoldable pub set_failed : Bytes → FlconcPbRpcController → FlconcPbRpcController
set_failed reason c = record c { m_is_failed = true; m_error_info = reason }

unfoldable pub set_error_code : ℤ → FlconcPbRpcController → FlconcPbRpcController
set_error_code error_code c = record c { m_error_code = error_code }

unfoldable pub set_error : ℤ → Bytes → FlconcPbRpcController → FlconcPbRpcController
set_error err_code err_info c = set_error_code err_code (set_failed err_info c)

unfoldable pub set_msg_req : Bytes → FlconcPbRpcController → FlconcPbRpcController
set_msg_req msg_req c = record c { m_msg_req = msg_req }

unfoldable pub set_peer_addr : Option ℕ → FlconcPbRpcController → FlconcPbRpcController
set_peer_addr addr c = record c { m_peer_addr = addr }

unfoldable pub set_local_addr : Option ℕ → FlconcPbRpcController → FlconcPbRpcController
set_local_addr addr c = record c { m_local_addr = addr }

unfoldable pub set_timeout : ℤ → FlconcPbRpcController → FlconcPbRpcController
set_timeout timeout c = record c { m_timeout = timeout }

unfoldable pub set_method_name : Bytes → FlconcPbRpcController → FlconcPbRpcController
set_method_name name c = record c { m_method_name = name }

unfoldable pub set_method_full_name : Bytes → FlconcPbRpcController → FlconcPbRpcController
set_method_full_name name c = record c { m_full_name = name }

-- An error is a failure with its code and its text, and touches nothing that the call was given.
pub set_error-failed :
    (err_code : ℤ) (err_info : Bytes) (c : FlconcPbRpcController)
    → let c' = set_error err_code err_info c in
      (c'.m_is_failed ≡ true)
      × (c'.m_error_code ≡ err_code)
      × (c'.m_error_info ≡ err_info)
      × (c'.m_msg_req ≡ c.m_msg_req)
      × (c'.m_timeout ≡ c.m_timeout)
unfolding set_error set_error_code set_failed
set_error-failed err_code err_info c = (refl, refl, refl, refl, refl)
