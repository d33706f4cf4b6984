-- ===== src/Comm/Log/Async.antt =====
-- flconc/comm/log.cc: `AsyncLogger`, the thread that writes the batches it is given to the log files. What
-- the clock, `fopen` and `ftell` answer in a round is an argument. `none` is undefined behaviour:
-- the front of an empty queue, or a null file handle.
use flconc.Base.{
  ℕ, ◌+◌, ◌&&◌, Bool, true, false, Bytes, List, [], ◌∷◌, ◌++◌, Option, none, some, ltb, is_empty,
  same_bytes, if◌then◌else◌, ◌>>=◌, not,
}
use flconc.Http.Message.{decimal}
use flconc.Comm.Log.{LogType, log_type_to_string}

-- An open file is its name. `written` are the calls of `fwrite`, with the file they go to; `is_ended` is
-- the end of the thread.
pub record AsyncLogger : Type 0 where
  pub m_file_name : Bytes
  pub m_file_path : Bytes
  pub m_max_size : ℕ
  pub m_log_type : LogType
  pub m_tasks : List (List Bytes)
  pub m_no : ℕ
  pub m_need_reopen : Bool
  pub m_file_handle : Option Bytes
  pub m_date : Bytes
  pub m_stop : Bool
  pub is_ended : Bool
  pub written : List (Bytes × Bytes)

unfoldable pub new_async_logger : Bytes → Bytes → ℕ → LogType → AsyncLogger
new_async_logger file_name file_path max_size type = record {
  m_file_name = file_name;
  m_file_path = file_path;
  m_max_size = max_size;
  m_log_type = type;
  m_tasks = [];
  m_no = 0;
  m_need_reopen = false;
  m_file_handle = none;
  m_date = [];
  m_stop = false;
  is_ended = false;
  written = [];
}

-- `push`: an empty batch is left out.
unfoldable pub push : List Bytes → AsyncLogger → AsyncLogger
push buffer l = if is_empty buffer then l else record l { m_tasks = l.m_tasks ++ buffer ∷ [] }

unfoldable pub stop : AsyncLogger → AsyncLogger
stop l = record l { m_stop = true }

-- What a round gets: the date, whether the first `fopen` succeeds, what `ftell` says, and whether the
-- second `fopen` does.
pub record Answers : Type 0 where
  pub date : Bytes
  pub opens : Bool
  pub size : ℕ
  pub opens_next : Bool

abbrev pub log_suffix : Bytes
log_suffix = b'.' ∷ b'l' ∷ b'o' ∷ b'g' ∷ []

unfoldable pub full_file_name : AsyncLogger → Bytes
full_file_name l =
    l.m_file_path
    ++ (l.m_file_name
        ++ (b'_'
            ∷ (l.m_date
                ++ (b'_'
                    ∷ (log_type_to_string l.m_log_type
                        ++ (b'_' ∷ (decimal l.m_no ++ log_suffix)))))))

-- A new day starts with number 0 and a file of its own.
unfoldable pub check_date : Bytes → AsyncLogger → AsyncLogger
check_date date l =
    if same_bytes l.m_date date
    then l
    else record l { m_no = 0; m_date = date; m_need_reopen = true }

abbrev pub is_open : Option Bytes → Bool
is_open none = false
is_open (some _) = true

-- `fopen`
abbrev pub opened : Bool → Bytes → Option Bytes
opened succeeds name = if succeeds then some name else none

unfoldable pub check_handle : AsyncLogger → AsyncLogger
check_handle l = if is_open l.m_file_handle then l else record l { m_need_reopen = true }

unfoldable pub reopen : Bool → AsyncLogger → AsyncLogger
reopen succeeds l =
    if l.m_need_reopen
    then record l { m_file_handle = opened succeeds (full_file_name l); m_need_reopen = false }
    else l

-- `ftell` of a null handle is undefined.
unfoldable pub roll : ℕ → Bool → AsyncLogger → Option AsyncLogger
roll size succeeds l =
    let next : AsyncLogger = record l { m_no = l.m_no + 1 } in
    if not (is_open l.m_file_handle)
    then none
    else if ltb l.m_max_size size
    then some (record next {
      m_file_handle = opened succeeds (full_file_name next);
      m_need_reopen = false;
    })
    else some l

-- The strings of a batch that are not empty, each to the open file.
unfoldable pub write_all : List Bytes → Option Bytes → Option (List (Bytes × Bytes))
write_all [] handle = some []
write_all ([] ∷ tmp) handle = write_all tmp handle
write_all ((c ∷ cs) ∷ tmp) none = none
write_all ((c ∷ cs) ∷ tmp) (some name) = do
  rest ← write_all tmp (some name)
  some ((name, c ∷ cs) ∷ rest)

-- A round behind the taking of a batch.
unfoldable pub write_batch : Answers → List Bytes → AsyncLogger → Option AsyncLogger
write_batch a tmp l = do
  l' ← roll a.size a.opens_next (reopen a.opens (check_handle (check_date a.date l)))
  calls ← write_all tmp l'.m_file_handle
  some (record l' { written = l'.written ++ calls; is_ended = l'.m_stop })

-- The front of the queue.
unfoldable pub take_batch : Answers → List (List Bytes) → AsyncLogger → Option AsyncLogger
take_batch a [] l = none
take_batch a (tmp ∷ tasks) l = write_batch a tmp (record l { m_tasks = tasks })

-- Whether the thread waits for the condition.
abbrev pub waits : AsyncLogger → Bool
waits l = is_empty l.m_tasks && not l.m_stop

-- One round of `excute`. A thread that waits, or has ended, does nothing.
unfoldable pub excute_round : Answers → AsyncLogger → Option AsyncLogger
excute_round a l =
    if l.is_ended then some l else if waits l then some l else take_batch a l.m_tasks l

-- So many rounds.
unfoldable pub excute : List Answers → AsyncLogger → Option AsyncLogger
excute [] l = some l
excute (a ∷ later) l = do l' ← excute_round a l; excute later l'
