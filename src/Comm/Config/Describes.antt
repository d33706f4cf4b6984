-- ===== src/Comm/Config/Describes.antt =====
-- flconc/comm/config.cc: what a configuration file says, and the settings that it stands for.
use flconc.Base.{◌*◌, ◌<◌, ◌≡◌, true, false, Bytes, List, [], ◌∷◌, Option, some, ◌>>=◌}
use flconc.Base.Int.{pos, eq_ℤ}
use flconc.Base.Text.{codes}
use flconc.Http.Message.{atoi, to_upper}
use flconc.Comm.Log.{string_to_level}
use flconc.Net.Address.{uint16}
use flconc.Comm.Config.{Config, Conf, times, is_int, server_ip, protocal_of, summary_length}

-- The texts of a file.
pub record Settings : Type 0 where
  pub log_path : Bytes
  pub log_prefix : Bytes
  pub log_max_file_size : Bytes
  pub rpc_log_level : Bytes
  pub app_log_level : Bytes
  pub log_sync_inteval : Bytes
  pub coroutine_stack_size : Bytes
  pub coroutine_pool_size : Bytes
  pub msg_req_len : Bytes
  pub max_connect_timeout : Bytes
  pub iothread_num : Bytes
  pub bucket_num : Bytes
  pub inteval : Bytes
  pub ip : Bytes
  pub port : Bytes
  pub protocal : Bytes

-- The settings that these texts stand for.
unfoldable pub config_of : Settings → Config
config_of s = record {
  m_log_path = s.log_path;
  m_log_prefix = s.log_prefix;
  m_log_max_size = times (atoi s.log_max_file_size) (1024 * 1024);
  m_log_level = string_to_level s.rpc_log_level;
  m_app_log_level = string_to_level s.app_log_level;
  m_log_sync_inteval = atoi s.log_sync_inteval;
  m_cor_stack_size = times (atoi s.coroutine_stack_size) 1024;
  m_cor_pool_size = atoi s.coroutine_pool_size;
  m_msg_req_len = atoi s.msg_req_len;
  m_max_connect_timeout = times (atoi s.max_connect_timeout) 1000;
  m_iothread_num = atoi s.iothread_num;
  m_timewheel_bucket_num = atoi s.bucket_num;
  m_timewheel_inteval = atoi s.inteval;
}

unfoldable pub conf_of : Settings → Conf
conf_of s = record {
  config = config_of s;
  server_addr = record { m_ip = server_ip s.ip; m_port = uint16 (atoi s.port) };
  server_type = protocal_of s.protocal;
}

-- The products are in the range of `int`, there is a port, and the line about the settings is shorter
-- than its array.
pub record IsUsable (file_path : Bytes) (s : Settings) : Type 0 where
  pub max_size : is_int (times (atoi s.log_max_file_size) (1024 * 1024)) ≡ true
  pub stack_size : is_int (times (atoi s.coroutine_stack_size) 1024) ≡ true
  pub timeout : is_int (times (atoi s.max_connect_timeout) 1000) ≡ true
  pub has_port : eq_ℤ (atoi s.port) (pos 0) ≡ false
  pub short :
      summary_length file_path (config_of s) (server_ip s.ip) (atoi s.port) (to_upper s.protocal)
      < 512

module _ {N : Type 0} (first_child_element : N → Bytes → Option N)
    (get_text : N → Option Bytes) where
  -- The text at the end of a path of nodes.
  unfoldable pub text_at : N → List Bytes → Option Bytes
  text_at node [] = get_text node
  text_at node (name ∷ names) = do child ← first_child_element node name; text_at child names

  abbrev pub in_node : Bytes → Bytes → List Bytes
  in_node parent name = parent ∷ name ∷ []

  -- The file has each text in its place.
  pub record Describes (root : N) (s : Settings) : Type 0 where
    pub log_path : text_at root (in_node (codes "log") (codes "log_path")) ≡ some s.log_path
    pub log_prefix : text_at root (in_node (codes "log") (codes "log_prefix")) ≡ some s.log_prefix
    pub log_max_file_size :
        text_at root (in_node (codes "log") (codes "log_max_file_size")) ≡ some s.log_max_file_size
    pub rpc_log_level :
        text_at root (in_node (codes "log") (codes "rpc_log_level")) ≡ some s.rpc_log_level
    pub app_log_level :
        text_at root (in_node (codes "log") (codes "app_log_level")) ≡ some s.app_log_level
    pub log_sync_inteval :
        text_at root (in_node (codes "log") (codes "log_sync_inteval")) ≡ some s.log_sync_inteval
    pub coroutine_stack_size :
        text_at root (in_node (codes "coroutine") (codes "coroutine_stack_size"))
        ≡ some s.coroutine_stack_size
    pub coroutine_pool_size :
        text_at root (in_node (codes "coroutine") (codes "coroutine_pool_size"))
        ≡ some s.coroutine_pool_size
    pub msg_req_len : text_at root (codes "msg_req_len" ∷ []) ≡ some s.msg_req_len
    pub max_connect_timeout :
        text_at root (codes "max_connect_timeout" ∷ []) ≡ some s.max_connect_timeout
    pub iothread_num : text_at root (codes "iothread_num" ∷ []) ≡ some s.iothread_num
    pub bucket_num :
        text_at root (in_node (codes "time_wheel") (codes "bucket_num")) ≡ some s.bucket_num
    pub inteval : text_at root (in_node (codes "time_wheel") (codes "inteval")) ≡ some s.inteval
    pub ip : text_at root (in_node (codes "server") (codes "ip")) ≡ some s.ip
    pub port : text_at root (in_node (codes "server") (codes "port")) ≡ some s.port
    pub protocal : text_at root (in_node (codes "server") (codes "protocal")) ≡ some s.protocal
