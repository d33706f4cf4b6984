-- ===== src/Comm/Log/Logger.antt =====
-- flconc/comm/log.cc: `Logger`, its two buffers and the two writing threads behind them.
pub mod Account
pub mod Drains
use flconc.Base.{
  ℕ, zero, suc, Bool, true, false, Bytes, List, [], ◌∷◌, ◌++◌, Option, none, some, if◌then◌else◌,
  ◌>>=◌, replicate,
}
use flconc.Comm.Log.{LogType, rpc_log, app_log, Buffers, push_rpc_log, push_app_log}
use flconc.Comm.Log.Async.{AsyncLogger, Answers, new_async_logger, push, stop, excute_round}

pub record Logger : Type 0 where
  pub buffers : Buffers
  pub m_async_rpc_logger : AsyncLogger
  pub m_async_app_logger : AsyncLogger
  pub m_sync_inteval : ℕ

-- `init` of a logger for the first time: so many empty strings in both buffers.
unfoldable pub init : ℕ → Bytes → Bytes → ℕ → ℕ → Logger
init count file_name file_path max_size sync_inteval = record {
  buffers = record { m_buffer = replicate count []; m_app_buffer = replicate count [] };
  m_async_rpc_logger = new_async_logger file_name file_path max_size rpc_log;
  m_async_app_logger = new_async_logger file_name file_path max_size app_log;
  m_sync_inteval = sync_inteval;
}

abbrev pub no_lines : Buffers
no_lines = record { m_buffer = []; m_app_buffer = [] }

-- `loopFunc`, the task of the timer: the buffers go to the threads.
unfoldable pub loop_func : Logger → Logger
loop_func l = record l {
  buffers = no_lines;
  m_async_rpc_logger = push l.buffers.m_buffer l.m_async_rpc_logger;
  m_async_app_logger = push l.buffers.m_app_buffer l.m_async_app_logger;
}

-- `flush`, at the end of the program.
unfoldable pub flush : Logger → Logger
flush l =
    let l' : Logger = loop_func l in
    record l' {
      m_async_rpc_logger = stop l'.m_async_rpc_logger;
      m_async_app_logger = stop l'.m_async_app_logger;
    }

-- What happens to a logger: a line from any thread, the timer, or a round of a writing thread.
pub data Event : Type 0 where
  rpc_line app_line : Bytes → Event
  syncs : Event
  rpc_round app_round : Answers → Event

unfoldable pub handle : Event → Logger → Option Logger
handle (rpc_line msg) l = some (record l { buffers = push_rpc_log msg l.buffers })
handle (app_line msg) l = some (record l { buffers = push_app_log msg l.buffers })
handle syncs l = some (loop_func l)
handle (rpc_round a) l = do
  rpc ← excute_round a l.m_async_rpc_logger
  some (record l { m_async_rpc_logger = rpc })
handle (app_round a) l = do
  app ← excute_round a l.m_async_app_logger
  some (record l { m_async_app_logger = app })

unfoldable pub run : List Event → Logger → Option Logger
run [] l = some l
run (e ∷ es) l = do l' ← handle e l; run es l'
