-- ===== src/Comm/Config/Sound.antt =====
-- flconc/comm/config.cc: what is read is what the file says.
use flconc.Base.{
  ◌<◌, ◌≡◌, sym, ap, subst, ◌∙◌, Bytes, Option, some, ltb, ltb→lt, Bool-cases, inl, inr,
}
use flconc.Base.Int.{ℤ}
use flconc.Base.Text.{codes}
use flconc.Http.Message.{atoi, to_upper}
use flconc.Comm.Config.Reading.{has, >>=-eq-has, has-injective, or_exits, or_exits-eq-has}
use flconc.Comm.Config.{
  Config, Conf, fresh_config, protocal_of, server_ip, summary_length, finish, child_of,
  read_log_config, read_sizes, read_time_wheel, read_conf,
}
use flconc.Comm.Config.Describes.{Settings, config_of, conf_of, IsUsable, Describes}
use flconc.Net.Address.{uint16}
use flconc.Comm.Config.Stages.{
  LogTexts, SizeTexts, WheelTexts, read_log_config-LogTexts, read_sizes-SizeTexts,
  read_time_wheel-WheelTexts,
}
use flconc.Comm.Config.ServerStage.{ServerTexts, read_server-ServerTexts}

finish-eq-has :
    (file_path : Bytes) (c : Config) (ip : Bytes) (port : ℤ) (protocal : Bytes) (conf : Conf)
    → finish file_path c ip port protocal ≡ has conf
    → (summary_length file_path c ip port (to_upper protocal) < 512)
      × (record {
        config = c;
        server_addr = record { m_ip = ip; m_port = uint16 port };
        server_type = protocal_of protocal;
      }
          ≡ conf)
unfolding finish
finish-eq-has file_path c ip port protocal conf h =
    elim (Bool-cases (ltb (summary_length file_path c ip port (to_upper protocal)) 512)) [
      | inl e ↦ (ltb→lt _ _ e, has-injective (rw e at h))
      | inr e ↦ absurd (cc (rw e at h))
    ]

module _ {N : Type 0} (first_child_element : N → Bytes → Option N) (get_text : N → Option Bytes)
    (file_path : Bytes) (root : N) (c₁ c₂ c₃ : Config) (conf : Conf)
    (l : LogTexts first_child_element get_text root fresh_config c₁)
    (z : SizeTexts first_child_element get_text root c₁ c₂)
    (w : WheelTexts first_child_element get_text root c₂ c₃)
    (v : ServerTexts first_child_element get_text file_path root c₃ conf) where
  -- The texts that the stages have read.
  abbrev texts : Settings
  texts = record {
    log_path = l.path;
    log_prefix = l.prefix;
    log_max_file_size = l.size;
    rpc_log_level = l.rpc_level;
    app_log_level = l.app_level;
    log_sync_inteval = l.inteval;
    coroutine_stack_size = z.stack;
    coroutine_pool_size = z.pool;
    msg_req_len = z.number;
    max_connect_timeout = z.timeout;
    iothread_num = z.threads;
    bucket_num = w.buckets;
    inteval = w.interval;
    ip = v.ip;
    port = v.port;
    protocal = v.protocal;
  }

  same_config : c₃ ≡ config_of texts
  unfolding config_of
  same_config = simp (w.result, z.result, l.result, l.exact, z.stack_exact, z.timeout_exact)

  texts-Describes : Describes first_child_element get_text root texts
  texts-Describes = record {
    log_path = l.at_path;
    log_prefix = l.at_prefix;
    log_max_file_size = l.at_size;
    rpc_log_level = l.at_rpc;
    app_log_level = l.at_app;
    log_sync_inteval = l.at_inteval;
    coroutine_stack_size = z.at_stack;
    coroutine_pool_size = z.at_pool;
    msg_req_len = z.at_number;
    max_connect_timeout = z.at_timeout;
    iothread_num = z.at_threads;
    bucket_num = w.at_buckets;
    inteval = w.at_interval;
    ip = v.at_ip;
    port = v.at_port;
    protocal = v.at_protocal;
  }

  texts-IsUsable : IsUsable file_path texts × (conf ≡ conf_of texts)
  unfolding conf_of
  texts-IsUsable =
      let (short, same) =
        finish-eq-has file_path c₃ (server_ip v.ip) (atoi v.port) v.protocal conf v.done in
      (
        record {
          max_size = l.in_range;
          stack_size = z.stack_range;
          timeout = z.timeout_range;
          has_port = v.has_port;
          short =
              subst
                (λ c.
                  summary_length file_path c (server_ip v.ip) (atoi v.port) (to_upper v.protocal)
                  < 512)
                same_config short;
        },
        sym same
            ∙ ap
                (λ (c : Config). record {
                  config = c;
                  server_addr = record { m_ip = server_ip v.ip; m_port = uint16 (atoi v.port) };
                  server_type = protocal_of v.protocal;
                })
                same_config,
      )

-- When `readConf` succeeds, the file has every setting in its place, the products are in the range of `int`,
-- there is a port, the line about the settings is shorter than its array, and the settings are
-- those that the texts of the file stand for.
pub read_conf_sound :
    {N : Type 0} (first_child_element : N → Bytes → Option N) (get_text : N → Option Bytes)
    (file_path : Bytes) (root : N) (conf : Conf)
    → read_conf first_child_element get_text file_path (some root) fresh_config ≡ has conf
    → (s : Settings) × Describes first_child_element get_text root s
      × IsUsable file_path s
      × (conf ≡ conf_of s)
unfolding read_conf child_of
read_conf_sound first_child_element get_text file_path root conf h =
    let child = first_child_element root in
    let (log_node, e₁, h₁) = >>=-eq-has (or_exits (codes "log") (child (codes "log"))) _ h in
    let (c₁, f₁, g₁) =
      >>=-eq-has (read_log_config first_child_element get_text log_node fresh_config) _ h₁ in
    let (wheel_node, e₂, h₂) =
      >>=-eq-has (or_exits (codes "time_wheel") (child (codes "time_wheel"))) _ g₁ in
    let (cor_node, e₃, h₃) =
      >>=-eq-has (or_exits (codes "coroutine") (child (codes "coroutine"))) _ h₂ in
    let (c₂, f₂, g₂) = >>=-eq-has (read_sizes first_child_element get_text root cor_node c₁) _ h₃ in
    let (c₃, f₃, g₃) =
      >>=-eq-has (read_time_wheel first_child_element get_text wheel_node c₂) _ g₂ in
    let (net_node, e₄, h₄) = >>=-eq-has (or_exits (codes "server") (child (codes "server"))) _ g₃ in
    let l =
      read_log_config-LogTexts first_child_element get_text root log_node fresh_config c₁
        (or_exits-eq-has _ _ e₁) f₁ in
    let z =
      read_sizes-SizeTexts first_child_element get_text root cor_node c₁ c₂ (or_exits-eq-has _ _ e₃)
        f₂ in
    let w =
      read_time_wheel-WheelTexts first_child_element get_text root wheel_node c₂ c₃
        (or_exits-eq-has _ _ e₂) f₃ in
    let v =
      read_server-ServerTexts first_child_element get_text file_path root net_node c₃ conf
        (or_exits-eq-has _ _ e₄) h₄ in
    let (usable, same) =
      texts-IsUsable first_child_element get_text file_path root c₁ c₂ c₃ conf l z w v in
    (
      texts first_child_element get_text file_path root c₁ c₂ c₃ conf l z w v,
      texts-Describes first_child_element get_text file_path root c₁ c₂ c₃ conf l z w v,
      usable,
      same,
    )
