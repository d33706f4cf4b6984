-- ===== src/Comm/Log.antt =====
-- flconc/comm/log.h and log.cc: the levels, and what a log statement puts into the buffers of `Logger`.
-- The clock, its formatting, the ids of the process and of the thread, and the text that a statement
-- streams or formats are arguments.
pub mod Async
pub mod Logger
pub mod Writes
pub mod Stop
pub mod Levels
use flconc.Base.{
  ℕ, ◌≡◌, ◌&&◌, Bool, true, false, Bytes, List, [], ◌∷◌, ◌++◌, Option, none, some, leb, is_empty,
  same_bytes, if◌then◌else◌,
}
use flconc.Http.Message.{decimal}

pub data LogLevel : Type 0 where
  debug info warn error silent : LogLevel

pub data LogType : Type 0 where
  rpc_log app_log : LogType

-- The values of the enumeration; `silent` is NONE.
abbrev pub level_value : LogLevel → ℕ
level_value debug = 1
level_value info = 2
level_value warn = 3
level_value error = 4
level_value silent = 5

abbrev pub debug_text : Bytes
debug_text = b'D' ∷ b'E' ∷ b'B' ∷ b'U' ∷ b'G' ∷ []

abbrev pub info_text : Bytes
info_text = b'I' ∷ b'N' ∷ b'F' ∷ b'O' ∷ []

abbrev pub warn_text : Bytes
warn_text = b'W' ∷ b'A' ∷ b'R' ∷ b'N' ∷ []

abbrev pub error_text : Bytes
error_text = b'E' ∷ b'R' ∷ b'R' ∷ b'O' ∷ b'R' ∷ []

abbrev pub none_text : Bytes
none_text = b'N' ∷ b'O' ∷ b'N' ∷ b'E' ∷ []

-- NONE falls through to the default, which returns what was set.
unfoldable pub level_to_string : LogLevel → Bytes
level_to_string debug = debug_text
level_to_string info = info_text
level_to_string warn = warn_text
level_to_string error = error_text
level_to_string silent = none_text

unfoldable pub string_to_level : Bytes → LogLevel
string_to_level str =
    if same_bytes str debug_text
    then debug
    else if same_bytes str info_text
    then info
    else if same_bytes str warn_text
    then warn
    else if same_bytes str error_text
    then error
    else if same_bytes str none_text
    then silent
    else debug

unfoldable pub log_type_to_string : LogType → Bytes
log_type_to_string app_log = b'a' ∷ b'p' ∷ b'p' ∷ []
log_type_to_string rpc_log = b'r' ∷ b'p' ∷ b'c' ∷ []

-- `[…]` and a tab.
abbrev pub bracketed : Bytes → Bytes
bracketed text = b'[' ∷ (text ++ b']' ∷ 9 ∷ [])

abbrev pub line_end : Bytes
line_end = 10 ∷ []

-- What `getStringStream` finds: the time, the ids, and the run time of the coroutine where there is one.
pub record Moment : Type 0 where
  pub time_text : Bytes
  pub tv_usec : ℕ
  pub pid : ℕ
  pub tid : ℕ
  pub cor_id : ℕ
  pub run_time : Option (Bytes × Bytes)

pub record LogEvent : Type 0 where
  pub m_level : LogLevel
  pub m_file_name : Bytes
  pub m_line : ℕ
  pub m_type : LogType
  pub m_ss : Bytes

abbrev pub bracketed_unless_empty : Bytes → Bytes
bracketed_unless_empty text = if is_empty text then [] else bracketed text

-- The number and the interface of the run time, each only where it is not empty.
unfoldable pub run_time_text : Option (Bytes × Bytes) → Bytes
run_time_text none = []
run_time_text (some (msg_no, interface_name)) =
    bracketed_unless_empty msg_no ++ bracketed_unless_empty interface_name

unfoldable pub header_text : Moment → LogEvent → Bytes
header_text m e =
    bracketed (m.time_text ++ b'.' ∷ decimal m.tv_usec)
    ++ (bracketed (level_to_string e.m_level)
        ++ (bracketed (decimal m.pid)
            ++ (bracketed (decimal m.tid)
                ++ (bracketed (decimal m.cor_id)
                    ++ (bracketed (e.m_file_name ++ b':' ∷ decimal e.m_line)
                        ++ run_time_text m.run_time)))))

-- `getStringStream`
unfoldable pub get_string_stream : Moment → LogEvent → LogEvent
get_string_stream m e = record e { m_ss = e.m_ss ++ header_text m e }

-- The two buffers of `Logger`.
pub record Buffers : Type 0 where
  pub m_buffer : List Bytes
  pub m_app_buffer : List Bytes

unfoldable pub push_rpc_log : Bytes → Buffers → Buffers
push_rpc_log msg b = record b { m_buffer = b.m_buffer ++ msg ∷ [] }

unfoldable pub push_app_log : Bytes → Buffers → Buffers
push_app_log msg b = record b { m_app_buffer = b.m_app_buffer ++ msg ∷ [] }

-- The levels of the configuration.
pub record LogConfig : Type 0 where
  pub m_log_level : LogLevel
  pub m_app_log_level : LogLevel

abbrev pub reaches_level : LogLevel → LogLevel → Bool
reaches_level level least = leb (level_value least) (level_value level)

abbrev pub is_rpc : LogType → Bool
is_rpc rpc_log = true
is_rpc app_log = false

abbrev pub is_app : LogType → Bool
is_app rpc_log = false
is_app app_log = true

-- `LogEvent::log`
unfoldable pub log : LogConfig → LogEvent → Buffers → Buffers
log config e b =
    let text : Bytes = e.m_ss ++ line_end in
    if reaches_level e.m_level config.m_log_level && is_rpc e.m_type
    then push_rpc_log text b
    else if reaches_level e.m_level config.m_app_log_level && is_app e.m_type
    then push_app_log text b
    else b

abbrev pub new_event : LogLevel → Bytes → ℕ → LogType → LogEvent
new_event level file line type = record {
  m_level = level;
  m_file_name = file;
  m_line = line;
  m_type = type;
  m_ss = [];
}

-- `DebugLog << …` and its like, where the logger is open: the header, what is streamed, and `log` when
-- the temporary goes.
unfoldable pub stream_log : LogConfig → LogLevel → Bytes → ℕ → Moment → Bytes → Buffers → Buffers
stream_log config level file line m streamed b =
    let e : LogEvent = get_string_stream m (new_event level file line rpc_log) in
    if reaches_level level config.m_log_level
    then log config (record e { m_ss = e.m_ss ++ streamed }) b
    else b

-- `AppDebugLog(…)` and its like: the place stands twice.
unfoldable pub format_log : LogConfig → LogLevel → Bytes → ℕ → Moment → Bytes → Buffers → Buffers
format_log config level file line m formatted b =
    let e : LogEvent = get_string_stream m (new_event level file line app_log) in
    if reaches_level level config.m_app_log_level
    then push_app_log
        (e.m_ss ++ (bracketed (file ++ b':' ∷ decimal line) ++ (formatted ++ line_end))) b
    else b
