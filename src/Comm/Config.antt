-- ===== src/Comm/Config.antt =====
-- flconc/comm/config.h and config.cc: the settings of the server, read from the XML file. The tree is that
-- of tinyxml, a parameter: a type of nodes with `FirstChildElement` and `GetText`, which may be null.
-- `readDBConfig` is empty unless the MySQL plugin is compiled in.
pub mod Reading
pub mod Describes
pub mod Complete
pub mod Stages
pub mod ServerStage
pub mod Sound
use flconc.Base.{
  ℕ, ◌+◌, ◌*◌, ◌/◌, ◌-◌, ◌^◌, ◌==◌, length, ◌≡◌, ◌&&◌, ◌||◌, Bool, true, false, Bytes, List, [],
  ◌∷◌, ◌++◌, Option, none, some, ltb, is_empty, same_bytes, if◌then◌else◌, not,
}
use flconc.Base.Int.{ℤ, pos, negsuc, ltb_ℤ, eq_ℤ}
use flconc.Http.Message.{atoi, decimal, to_upper}
use flconc.Comm.Log.{LogLevel, debug, level_to_string, string_to_level}
use flconc.Tcp.Server.{ProtocalType, flconc_pb_protocal, http_protocal}
use flconc.Base.Text.{codes}
use flconc.Net.Address.{IpAddress, uint16}
use flconc.Comm.Config.Reading.{Read, has, exits, faults, ◌>>=◌, or_exits, or_faults}

pub record Config : Type 0 where
  pub m_log_path : Bytes
  pub m_log_prefix : Bytes
  pub m_log_max_size : ℤ
  pub m_log_level : LogLevel
  pub m_app_log_level : LogLevel
  pub m_log_sync_inteval : ℤ
  pub m_cor_stack_size : ℤ
  pub m_cor_pool_size : ℤ
  pub m_msg_req_len : ℤ
  pub m_max_connect_timeout : ℤ
  pub m_iothread_num : ℤ
  pub m_timewheel_bucket_num : ℤ
  pub m_timewheel_inteval : ℤ

-- `Config` before `readConf`.
abbrev pub fresh_config : Config
fresh_config = record {
  m_log_path = [];
  m_log_prefix = [];
  m_log_max_size = pos 0;
  m_log_level = debug;
  m_app_log_level = debug;
  m_log_sync_inteval = pos 500;
  m_cor_stack_size = pos 0;
  m_cor_pool_size = pos 0;
  m_msg_req_len = pos 0;
  m_max_connect_timeout = pos 0;
  m_iothread_num = pos 0;
  m_timewheel_bucket_num = pos 0;
  m_timewheel_inteval = pos 0;
}

-- What `readConf` leaves: the settings, and the address and the protocol that `gRpcServer` is made with.
pub record Conf : Type 0 where
  pub config : Config
  pub server_addr : IpAddress
  pub server_type : ProtocalType

-- An `int` times a constant.
abbrev pub times : ℤ → ℕ → ℤ
times (pos n) k = pos (n * k)
times (negsuc n) k = if k == 0 then pos 0 else negsuc ((n + 1) * k - 1)

abbrev pub is_int : ℤ → Bool
is_int (pos n) = ltb n (2 ^ 31)
is_int (negsuc n) = ltb n (2 ^ 31)

-- Outside the range of `int` the product is undefined.
unfoldable pub mul_int : ℤ → ℕ → Read ℤ
mul_int n k = if is_int (times n k) then has (times n k) else faults

abbrev pub any_ip : Bytes
any_ip = codes "0.0.0.0"

unfoldable pub server_ip : Bytes → Bytes
server_ip ip = if is_empty ip then any_ip else ip

unfoldable pub protocal_of : Bytes → ProtocalType
protocal_of text =
    if same_bytes (to_upper text) (codes "HTTP") then http_protocal else flconc_pb_protocal

-- `%d` of an `int`.
abbrev pub int_text : ℤ → Bytes
int_text (pos n) = decimal n
int_text (negsuc n) = b'-' ∷ decimal (n + 1)

-- `/`, which rounds towards zero.
abbrev pub div_int : ℤ → ℕ → ℤ
div_int (pos n) k = pos (n / k)
div_int (negsuc n) k = if ltb n (k - 1) then pos 0 else negsuc ((n + 1) / k - 1)

-- The length of the line that `sprintf` makes: 310 characters of its format, and what is put in. The
-- values in KB and in seconds are those before the multiplication, which is exact.
unfoldable pub summary_length : Bytes → Config → Bytes → ℤ → Bytes → ℕ
summary_length file_path c ip port protocal =
    310
    + length file_path
    + length c.m_log_path
    + length c.m_log_prefix
    + length (int_text (div_int (div_int c.m_log_max_size 1024) 1024))
    + length (level_to_string c.m_log_level)
    + length (int_text (div_int c.m_cor_stack_size 1024))
    + length (int_text c.m_cor_pool_size)
    + length (int_text c.m_msg_req_len)
    + length (int_text (div_int c.m_max_connect_timeout 1000))
    + length (int_text c.m_iothread_num)
    + length (int_text c.m_timewheel_bucket_num)
    + length (int_text c.m_timewheel_inteval)
    + length ip
    + length (int_text port)
    + length protocal

-- The server is made, and the line is written into `buff[512]`.
unfoldable pub finish : Bytes → Config → Bytes → ℤ → Bytes → Read Conf
finish file_path c ip port protocal =
    if ltb (summary_length file_path c ip port (to_upper protocal)) 512
    then has (record {
      config = c;
      server_addr = record { m_ip = ip; m_port = uint16 port };
      server_type = protocal_of protocal;
    })
    else faults

-- The names in a message about the server.
abbrev pub server_names : Bytes
server_names = codes "server.ip] or [server.port] or [server.protocal"

module _ {N : Type 0} (first_child_element : N → Bytes → Option N)
    (get_text : N → Option Bytes) where
  -- The node of that name below another, or the end of the program with this name in the message.
  unfoldable pub child_of : Bytes → N → Bytes → Read N
  child_of name parent element = or_exits name (first_child_element parent element)

  -- The text of that node, or the same end.
  unfoldable pub text_of : Bytes → N → Bytes → Read Bytes
  text_of name parent element = do
    node ← child_of name parent element
    or_exits name (get_text node)

  -- `readLogConfig`, up to the making of the logger.
  unfoldable pub read_log_config : N → Config → Read Config
  read_log_config log_node c = do
    log_path ← text_of (codes "log_path") log_node (codes "log_path")
    log_prefix ← text_of (codes "log_prefix") log_node (codes "log_prefix")
    max_size ← text_of (codes "log_max_file_size") log_node (codes "log_max_file_size")
    log_max_size ← mul_int (atoi max_size) (1024 * 1024)
    rpc_level ← text_of (codes "rpc_log_level") log_node (codes "rpc_log_level")
    app_level ← text_of (codes "app_log_level") log_node (codes "app_log_level")
    inteval ← text_of (codes "log_sync_inteval") log_node (codes "log_sync_inteval")
    has (record c {
      m_log_path = log_path;
      m_log_prefix = log_prefix;
      m_log_max_size = log_max_size;
      m_log_level = string_to_level rpc_level;
      m_app_log_level = string_to_level app_level;
      m_log_sync_inteval = atoi inteval;
    })

  -- `readConf` from the node of the coroutines to the threads.
  unfoldable pub read_sizes : N → N → Config → Read Config
  read_sizes root coroutine_node c = do
    stack_size ←
        text_of (codes "coroutine.coroutine_stack_size") coroutine_node
          (codes "coroutine_stack_size")
    pool_size ←
        text_of (codes "coroutine.coroutine_pool_size") coroutine_node (codes "coroutine_pool_size")
    cor_stack_size ← mul_int (atoi stack_size) 1024
    msg_req_len ← text_of (codes "msg_req_len") root (codes "msg_req_len")
    max_timeout ← text_of (codes "max_connect_timeout") root (codes "max_connect_timeout")
    max_connect_timeout ← mul_int (atoi max_timeout) 1000
    iothread_num ← text_of (codes "iothread_num") root (codes "iothread_num")
    has (record c {
      m_cor_stack_size = cor_stack_size;
      m_cor_pool_size = atoi pool_size;
      m_msg_req_len = atoi msg_req_len;
      m_max_connect_timeout = max_connect_timeout;
      m_iothread_num = atoi iothread_num;
    })

  -- Both messages name the number of buckets.
  unfoldable pub read_time_wheel : N → Config → Read Config
  read_time_wheel time_wheel_node c = do
    bucket_num ← text_of (codes "time_wheel.bucket_num") time_wheel_node (codes "bucket_num")
    inteval ← text_of (codes "time_wheel.bucket_num") time_wheel_node (codes "inteval")
    has (record c { m_timewheel_bucket_num = atoi bucket_num; m_timewheel_inteval = atoi inteval })

  -- A server port of 0 ends the program.
  unfoldable pub read_port : Bytes → Config → Bytes → N → ℤ → Read Conf
  read_port file_path c ip protocal_node port =
      if eq_ℤ port (pos 0)
      then exits (codes "server.port")
      else (or_faults (get_text protocal_node) >>= λ protocal.
          finish file_path c (server_ip ip) port protocal)

  -- The three nodes of the server must be there; their texts are used without a test.
  unfoldable pub read_server : Bytes → N → Config → Read Conf
  read_server file_path net_node c = do
    ip_node ← child_of server_names net_node (codes "ip")
    port_node ← child_of server_names net_node (codes "port")
    protocal_node ← child_of server_names net_node (codes "protocal")
    ip ← or_faults (get_text ip_node)
    port ← or_faults (get_text port_node)
    read_port file_path c ip protocal_node (atoi port)

  -- `readConf`. A document without a root is a null pointer.
  unfoldable pub read_conf : Bytes → Option N → Config → Read Conf
  read_conf file_path root_element c = do
    root ← or_faults root_element
    log_node ← child_of (codes "log") root (codes "log")
    c₁ ← read_log_config log_node c
    time_wheel_node ← child_of (codes "time_wheel") root (codes "time_wheel")
    coroutine_node ← child_of (codes "coroutine") root (codes "coroutine")
    c₂ ← read_sizes root coroutine_node c₁
    c₃ ← read_time_wheel time_wheel_node c₂
    net_node ← child_of (codes "server") root (codes "server")
    read_server file_path net_node c₃
