-- ===== src/Comm/Config/Complete.antt =====
-- flconc/comm/config.cc: a file with every setting is read.
use flconc.Base.{
  ℕ, ◌*◌, ◌≡◌, refl, true, Bytes, List, [], ◌∷◌, Option, some, >>=-eq-some, lt→ltb, ltb,
}
use flconc.Base.Int.{ℤ}
use flconc.Base.Text.{codes}
use flconc.Http.Message.{atoi, to_upper}
use flconc.Comm.Log.{string_to_level}
use flconc.Comm.Config.Reading.{has}
use flconc.Comm.Config.{
  Config, fresh_config, times, is_int, mul_int, server_ip, summary_length, finish, child_of,
  text_of, read_log_config, read_sizes, read_time_wheel, read_port, read_server, read_conf,
}
use flconc.Comm.Config.Describes.{
  Settings, config_of, conf_of, IsUsable, text_at, in_node, Describes,
}

mul_int-has : (n : ℤ) (k : ℕ) → is_int (times n k) ≡ true → mul_int n k ≡ has (times n k)
unfolding mul_int
mul_int-has n k h = simp h

module _ {N : Type 0} (first_child_element : N → Bytes → Option N)
    (get_text : N → Option Bytes) where
  abbrev At : N → List Bytes → Bytes → Type 0
  At node names t = text_at first_child_element get_text node names ≡ some t

  -- A path begins with a node.
  path_node :
      (node : N) (name : Bytes) (names : List Bytes) (t : Bytes)
      → At node (name ∷ names) t
      → (child : N) × (first_child_element node name ≡ some child) × At child names t
  unfolding text_at
  path_node node name names t h = >>=-eq-some (first_child_element node name) _ h

  text_of-has :
      (message : Bytes) (node : N) (name t : Bytes)
      → At node (name ∷ []) t
      → text_of first_child_element get_text message node name ≡ has t
  unfolding text_of child_of text_at
  text_of-has message node name t h = let (child, e, g) = path_node node name [] t h in simp (e, g)

  -- A text below a node that is known.
  text_below :
      {root node : N} (message parent name t : Bytes)
      → first_child_element root parent ≡ some node
      → At root (in_node first_child_element get_text parent name) t
      → text_of first_child_element get_text message node name ≡ has t
  unfolding text_at
  text_below {root} {node} message parent name t e h = text_of-has message node name t (rw e at h)

  module _ (s : Settings) (root : N) (d : Describes first_child_element get_text root s) where
    read_log_config-has :
        (node : N) (c : Config)
        → first_child_element root (codes "log") ≡ some node
        → is_int (times (atoi s.log_max_file_size) (1024 * 1024)) ≡ true
        → read_log_config first_child_element get_text node c
          ≡ has (record c {
            m_log_path = s.log_path;
            m_log_prefix = s.log_prefix;
            m_log_max_size = times (atoi s.log_max_file_size) (1024 * 1024);
            m_log_level = string_to_level s.rpc_log_level;
            m_app_log_level = string_to_level s.app_log_level;
            m_log_sync_inteval = atoi s.log_sync_inteval;
          })
    unfolding read_log_config
    read_log_config-has node c e i =
        let text = λ (name t : Bytes). text_below {node = node} name (codes "log") name t e in
        simp (
          text (codes "log_path") s.log_path d.log_path,
          text (codes "log_prefix") s.log_prefix d.log_prefix,
          text (codes "log_max_file_size") s.log_max_file_size d.log_max_file_size,
          mul_int-has (atoi s.log_max_file_size) (1024 * 1024) i,
          text (codes "rpc_log_level") s.rpc_log_level d.rpc_log_level,
          text (codes "app_log_level") s.app_log_level d.app_log_level,
          text (codes "log_sync_inteval") s.log_sync_inteval d.log_sync_inteval,
        )

    read_sizes-has :
        (node : N) (c : Config)
        → first_child_element root (codes "coroutine") ≡ some node
        → is_int (times (atoi s.coroutine_stack_size) 1024) ≡ true
        → is_int (times (atoi s.max_connect_timeout) 1000) ≡ true
        → read_sizes first_child_element get_text root node c
          ≡ has (record c {
            m_cor_stack_size = times (atoi s.coroutine_stack_size) 1024;
            m_cor_pool_size = atoi s.coroutine_pool_size;
            m_msg_req_len = atoi s.msg_req_len;
            m_max_connect_timeout = times (atoi s.max_connect_timeout) 1000;
            m_iothread_num = atoi s.iothread_num;
          })
    unfolding read_sizes
    read_sizes-has node c e i j =
        let text = λ (message name t : Bytes).
          text_below {node = node} message (codes "coroutine") name t e in
        let top = λ (name t : Bytes). text_of-has name root name t in
        simp (
          text (codes "coroutine.coroutine_stack_size") (codes "coroutine_stack_size")
              s.coroutine_stack_size d.coroutine_stack_size,
          text (codes "coroutine.coroutine_pool_size") (codes "coroutine_pool_size")
              s.coroutine_pool_size d.coroutine_pool_size,
          mul_int-has (atoi s.coroutine_stack_size) 1024 i,
          top (codes "msg_req_len") s.msg_req_len d.msg_req_len,
          top (codes "max_connect_timeout") s.max_connect_timeout d.max_connect_timeout,
          mul_int-has (atoi s.max_connect_timeout) 1000 j,
          top (codes "iothread_num") s.iothread_num d.iothread_num,
        )

    read_time_wheel-has :
        (node : N) (c : Config)
        → first_child_element root (codes "time_wheel") ≡ some node
        → read_time_wheel first_child_element get_text node c
          ≡ has (record c {
            m_timewheel_bucket_num = atoi s.bucket_num;
            m_timewheel_inteval = atoi s.inteval;
          })
    unfolding read_time_wheel
    read_time_wheel-has node c e =
        let text = λ (name t : Bytes).
          text_below {node = node} (codes "time_wheel.bucket_num") (codes "time_wheel") name t e in
        simp (
          text (codes "bucket_num") s.bucket_num d.bucket_num,
          text (codes "inteval") s.inteval d.inteval,
        )

    read_server-has :
        (file_path : Bytes) (node : N) (c : Config)
        → first_child_element root (codes "server") ≡ some node
        → c ≡ config_of s
        → IsUsable file_path s
        → read_server first_child_element get_text file_path node c ≡ has (conf_of s)
    unfolding read_server read_port child_of finish conf_of text_at
    read_server-has file_path node c e same u =
        let (ip_node, p, ip) = path_node node (codes "ip") [] s.ip (rw e at d.ip) in
        let (port_node, q, port) = path_node node (codes "port") [] s.port (rw e at d.port) in
        let (protocal_node, r, protocal) =
          path_node node (codes "protocal") [] s.protocal (rw e at d.protocal) in
        let fits : ltb
              (summary_length file_path (config_of s) (server_ip s.ip) (atoi s.port)
                (to_upper s.protocal))
              512
            ≡ true =
          lt→ltb _ _ u.short in
        simp (same, p, q, r, ip, port, protocal, u.has_port, fits)

    pub read_conf-Describes :
        (file_path : Bytes)
        → IsUsable file_path s
        → read_conf first_child_element get_text file_path (some root) fresh_config
          ≡ has (conf_of s)
    unfolding read_conf child_of config_of
    read_conf-Describes file_path u =
        let (log_node, e₁, _) = path_node root (codes "log") _ s.log_path d.log_path in
        let (wheel_node, e₂, _) = path_node root (codes "time_wheel") _ s.inteval d.inteval in
        let (cor_node, e₃, _) =
          path_node root (codes "coroutine") _ s.coroutine_pool_size d.coroutine_pool_size in
        let (net_node, e₄, _) = path_node root (codes "server") _ s.ip d.ip in
        simp (
          e₁,
          e₂,
          e₃,
          e₄,
          read_log_config-has log_node fresh_config e₁ u.max_size,
          read_sizes-has cor_node _ e₃ u.stack_size u.timeout,
          read_time_wheel-has wheel_node _ e₂,
          read_server-has file_path net_node (config_of s) e₄ refl u,
        )
