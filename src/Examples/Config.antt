-- ===== src/Examples/Config.antt =====
-- flconc/comm/config.cc on a file whose settings are 5, with the port 20000.
use flconc.Base.{◌≡◌, refl, Bytes, Option, some, same_bytes, if◌then◌else◌, arith}
use flconc.Http.Message.{
  atoi, strtol, read_signed, read_digits, is_space, is_digit, decimal, digits, to_upper,
}
use flconc.Comm.Log.{level_to_string, string_to_level}
use flconc.Base.Text.{codes}
use flconc.Comm.Config.{summary_length, server_ip, read_conf, fresh_config}
use flconc.Comm.Config.Reading.{has}
use flconc.Comm.Config.Describes.{text_at, config_of, Settings, conf_of, IsUsable, Describes}
use flconc.Comm.Config.Complete.{read_conf-Describes}
use flconc.Comm.Config.Sound.{read_conf_sound}

-- A node is its name, and has every child.
abbrev first_child_element : Bytes → Bytes → Option Bytes
first_child_element node name = some name

abbrev get_text : Bytes → Option Bytes
get_text name = some (if same_bytes name (codes "port") then codes "20000" else codes "5")

abbrev five : Bytes
five = codes "5"

abbrev settings : Settings
settings = record {
  log_path = five;
  log_prefix = five;
  log_max_file_size = five;
  rpc_log_level = five;
  app_log_level = five;
  log_sync_inteval = five;
  coroutine_stack_size = five;
  coroutine_pool_size = five;
  msg_req_len = five;
  max_connect_timeout = five;
  iothread_num = five;
  bucket_num = five;
  inteval = five;
  ip = five;
  port = codes "20000";
  protocal = five;
}

abbrev root : Bytes
root = codes "config"

settings-Describes : Describes first_child_element get_text root settings
unfolding text_at same_bytes codes
settings-Describes = record {
  log_path = refl;
  log_prefix = refl;
  log_max_file_size = refl;
  rpc_log_level = refl;
  app_log_level = refl;
  log_sync_inteval = refl;
  coroutine_stack_size = refl;
  coroutine_pool_size = refl;
  msg_req_len = refl;
  max_connect_timeout = refl;
  iothread_num = refl;
  bucket_num = refl;
  inteval = refl;
  ip = refl;
  port = refl;
  protocal = refl;
}

settings-IsUsable : IsUsable (codes "f.xml") settings
unfolding atoi strtol read_signed read_digits is_space is_digit decimal digits to_upper
    summary_length config_of server_ip level_to_string string_to_level same_bytes
settings-IsUsable = record {
  max_size = refl;
  stack_size = refl;
  timeout = refl;
  has_port = refl;
  short = omega arith;
}

settings-read :
    read_conf first_child_element get_text (codes "f.xml") (some root) fresh_config
    ≡ has (conf_of settings)
settings-read =
    read_conf-Describes first_child_element get_text settings root settings-Describes
      (codes "f.xml") settings-IsUsable

read_conf_sound_example :
    (s : Settings) × Describes first_child_element get_text root s
    × IsUsable (codes "f.xml") s
    × (conf_of settings ≡ conf_of s)
read_conf_sound_example =
    read_conf_sound first_child_element get_text (codes "f.xml") root (conf_of settings)
      settings-read
