-- ===== src/Comm/Config/Stages.antt =====
-- flconc/comm/config.cc: the texts that each stage of a successful `readConf` has read.
use flconc.Base.{ℕ, ◌*◌, ◌≡◌, sym, true, Bytes, List, [], ◌∷◌, Option, some, Bool-cases, inl, inr}
use flconc.Base.Int.{ℤ}
use flconc.Base.Text.{codes}
use flconc.Http.Message.{atoi}
use flconc.Comm.Log.{string_to_level}
use flconc.Comm.Config.Reading.{has, >>=-eq-has, has-injective, or_exits, or_exits-eq-has}
use flconc.Comm.Config.{
  Config, times, is_int, mul_int, child_of, text_of, read_log_config, read_sizes, read_time_wheel,
}
use flconc.Comm.Config.Describes.{text_at}

mul_int-eq-has :
    (n : ℤ) (k : ℕ) (m : ℤ) → mul_int n k ≡ has m → (is_int (times n k) ≡ true) × (m ≡ times n k)
unfolding mul_int
mul_int-eq-has n k m h = elim (Bool-cases (is_int (times n k))) [
  | inl e ↦ (e, cc (rw e at h))
  | inr e ↦ absurd (cc (rw e at h))
]

module _ {N : Type 0} (first_child_element : N → Bytes → Option N)
    (get_text : N → Option Bytes) where
  abbrev pub At : N → List Bytes → Bytes → Type 0
  At node names t = text_at first_child_element get_text node names ≡ some t

  text_of-At :
      (message : Bytes) (node : N) (name t : Bytes)
      → text_of first_child_element get_text message node name ≡ has t
      → At node (name ∷ []) t
  unfolding text_of child_of text_at
  text_of-At message node name t h =
      let (child, e, g) = >>=-eq-has (or_exits message (first_child_element node name)) _ h in
      simp (or_exits-eq-has message _ e) (or_exits-eq-has message _ g)

  -- A text that was read below a node.
  above :
      {root node : N} (message parent name t : Bytes)
      → first_child_element root parent ≡ some node
      → text_of first_child_element get_text message node name ≡ has t
      → At root (parent ∷ name ∷ []) t
  unfolding text_at
  above {root} {node} message parent name t e h = rw e (text_of-At message node name t h)

  -- The texts that `readLogConfig` reads.
  pub record LogTexts (root : N) (c c' : Config) : Type 0 where
    pub path : Bytes
    pub prefix : Bytes
    pub size : Bytes
    pub rpc_level : Bytes
    pub app_level : Bytes
    pub inteval : Bytes
    pub at_path : At root (codes "log" ∷ codes "log_path" ∷ []) path
    pub at_prefix : At root (codes "log" ∷ codes "log_prefix" ∷ []) prefix
    pub at_size : At root (codes "log" ∷ codes "log_max_file_size" ∷ []) size
    pub at_rpc : At root (codes "log" ∷ codes "rpc_log_level" ∷ []) rpc_level
    pub at_app : At root (codes "log" ∷ codes "app_log_level" ∷ []) app_level
    pub at_inteval : At root (codes "log" ∷ codes "log_sync_inteval" ∷ []) inteval
    pub max_size : ℤ
    pub exact : max_size ≡ times (atoi size) (1024 * 1024)
    pub in_range : is_int (times (atoi size) (1024 * 1024)) ≡ true
    pub result : c' ≡ record c {
      m_log_path = path;
      m_log_prefix = prefix;
      m_log_max_size = max_size;
      m_log_level = string_to_level rpc_level;
      m_app_log_level = string_to_level app_level;
      m_log_sync_inteval = atoi inteval;
    }

  pub read_log_config-LogTexts :
      (root node : N) (c c' : Config)
      → first_child_element root (codes "log") ≡ some node
      → read_log_config first_child_element get_text node c ≡ has c'
      → LogTexts root c c'
  unfolding read_log_config
  read_log_config-LogTexts root node c c' e h =
      let text = λ (name : Bytes). text_of first_child_element get_text name node name in
      let (t₁, e₁, h₁) = >>=-eq-has (text (codes "log_path")) _ h in
      let (t₂, e₂, h₂) = >>=-eq-has (text (codes "log_prefix")) _ h₁ in
      let (t₃, e₃, h₃) = >>=-eq-has (text (codes "log_max_file_size")) _ h₂ in
      let (m, g, h₄) = >>=-eq-has (mul_int (atoi t₃) (1024 * 1024)) _ h₃ in
      let (t₅, e₅, h₅) = >>=-eq-has (text (codes "rpc_log_level")) _ h₄ in
      let (t₆, e₆, h₆) = >>=-eq-has (text (codes "app_log_level")) _ h₅ in
      let (t₇, e₇, h₇) = >>=-eq-has (text (codes "log_sync_inteval")) _ h₆ in
      let (range, same) = mul_int-eq-has (atoi t₃) (1024 * 1024) m g in
      record {
        path = t₁;
        prefix = t₂;
        size = t₃;
        rpc_level = t₅;
        app_level = t₆;
        inteval = t₇;
        at_path = above (codes "log_path") (codes "log") (codes "log_path") t₁ e e₁;
        at_prefix = above (codes "log_prefix") (codes "log") (codes "log_prefix") t₂ e e₂;
        at_size =
            above (codes "log_max_file_size") (codes "log") (codes "log_max_file_size") t₃ e e₃;
        at_rpc = above (codes "rpc_log_level") (codes "log") (codes "rpc_log_level") t₅ e e₅;
        at_app = above (codes "app_log_level") (codes "log") (codes "app_log_level") t₆ e e₆;
        at_inteval =
            above (codes "log_sync_inteval") (codes "log") (codes "log_sync_inteval") t₇ e e₇;
        max_size = m;
        exact = same;
        in_range = range;
        result = sym (has-injective h₇);
      }

  -- The texts that `readConf` reads from the coroutines on to the threads.
  pub record SizeTexts (root : N) (c c' : Config) : Type 0 where
    pub stack : Bytes
    pub pool : Bytes
    pub number : Bytes
    pub timeout : Bytes
    pub threads : Bytes
    pub at_stack : At root (codes "coroutine" ∷ codes "coroutine_stack_size" ∷ []) stack
    pub at_pool : At root (codes "coroutine" ∷ codes "coroutine_pool_size" ∷ []) pool
    pub at_number : At root (codes "msg_req_len" ∷ []) number
    pub at_timeout : At root (codes "max_connect_timeout" ∷ []) timeout
    pub at_threads : At root (codes "iothread_num" ∷ []) threads
    pub stack_size : ℤ
    pub stack_exact : stack_size ≡ times (atoi stack) 1024
    pub connect_timeout : ℤ
    pub timeout_exact : connect_timeout ≡ times (atoi timeout) 1000
    pub stack_range : is_int (times (atoi stack) 1024) ≡ true
    pub timeout_range : is_int (times (atoi timeout) 1000) ≡ true
    pub result : c' ≡ record c {
      m_cor_stack_size = stack_size;
      m_cor_pool_size = atoi pool;
      m_msg_req_len = atoi number;
      m_max_connect_timeout = connect_timeout;
      m_iothread_num = atoi threads;
    }

  pub read_sizes-SizeTexts :
      (root node : N) (c c' : Config)
      → first_child_element root (codes "coroutine") ≡ some node
      → read_sizes first_child_element get_text root node c ≡ has c'
      → SizeTexts root c c'
  unfolding read_sizes
  read_sizes-SizeTexts root node c c' e h =
      let text = λ (name : Bytes). text_of first_child_element get_text name in
      let (t₁, e₁, h₁) =
        >>=-eq-has
          (text (codes "coroutine.coroutine_stack_size") node (codes "coroutine_stack_size")) _ h in
      let (t₂, e₂, h₂) =
        >>=-eq-has (text (codes "coroutine.coroutine_pool_size") node (codes "coroutine_pool_size"))
          _ h₁ in
      let (m, g, h₃) = >>=-eq-has (mul_int (atoi t₁) 1024) _ h₂ in
      let (t₄, e₄, h₄) = >>=-eq-has (text (codes "msg_req_len") root (codes "msg_req_len")) _ h₃ in
      let (t₅, e₅, h₅) =
        >>=-eq-has (text (codes "max_connect_timeout") root (codes "max_connect_timeout")) _ h₄ in
      let (k, f, h₆) = >>=-eq-has (mul_int (atoi t₅) 1000) _ h₅ in
      let (t₇, e₇, h₇) =
        >>=-eq-has (text (codes "iothread_num") root (codes "iothread_num")) _ h₆ in
      let (range, same) = mul_int-eq-has (atoi t₁) 1024 m g in
      let (range', same') = mul_int-eq-has (atoi t₅) 1000 k f in
      record {
        stack = t₁;
        pool = t₂;
        number = t₄;
        timeout = t₅;
        threads = t₇;
        at_stack =
            above (codes "coroutine.coroutine_stack_size") (codes "coroutine")
              (codes "coroutine_stack_size") t₁ e e₁;
        at_pool =
            above (codes "coroutine.coroutine_pool_size") (codes "coroutine")
              (codes "coroutine_pool_size") t₂ e e₂;
        at_number = text_of-At (codes "msg_req_len") root (codes "msg_req_len") t₄ e₄;
        at_timeout =
            text_of-At (codes "max_connect_timeout") root (codes "max_connect_timeout") t₅ e₅;
        at_threads = text_of-At (codes "iothread_num") root (codes "iothread_num") t₇ e₇;
        stack_size = m;
        stack_exact = same;
        connect_timeout = k;
        timeout_exact = same';
        stack_range = range;
        timeout_range = range';
        result = sym (has-injective h₇);
      }

  pub record WheelTexts (root : N) (c c' : Config) : Type 0 where
    pub buckets : Bytes
    pub interval : Bytes
    pub at_buckets : At root (codes "time_wheel" ∷ codes "bucket_num" ∷ []) buckets
    pub at_interval : At root (codes "time_wheel" ∷ codes "inteval" ∷ []) interval
    pub result :
        c' ≡ record c { m_timewheel_bucket_num = atoi buckets; m_timewheel_inteval = atoi interval }

  pub read_time_wheel-WheelTexts :
      (root node : N) (c c' : Config)
      → first_child_element root (codes "time_wheel") ≡ some node
      → read_time_wheel first_child_element get_text node c ≡ has c'
      → WheelTexts root c c'
  unfolding read_time_wheel
  read_time_wheel-WheelTexts root node c c' e h =
      let text = text_of first_child_element get_text (codes "time_wheel.bucket_num") node in
      let (t₁, e₁, h₁) = >>=-eq-has (text (codes "bucket_num")) _ h in
      let (t₂, e₂, h₂) = >>=-eq-has (text (codes "inteval")) _ h₁ in
      record {
        buckets = t₁;
        interval = t₂;
        at_buckets =
            above (codes "time_wheel.bucket_num") (codes "time_wheel") (codes "bucket_num") t₁ e e₁;
        at_interval =
            above (codes "time_wheel.bucket_num") (codes "time_wheel") (codes "inteval") t₂ e e₂;
        result = sym (has-injective h₂);
      }
