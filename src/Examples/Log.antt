-- ===== src/Examples/Log.antt =====
-- flconc/comm/log.cc on a logger with a few lines.
use flconc.Base.{arith, ◌≡◌, refl, true, false, inl, Bytes, List, [], ◌∷◌, ◌++◌, none, Returns}
use flconc.Comm.Log.{rpc_log}
use flconc.Comm.Log.Async.{AsyncLogger, Answers, stop, excute, excute_round, full_file_name}
use flconc.Comm.Log.Writes.{texts, join, lines_to, Wrote, excute_round-Wrote}
use flconc.Comm.Log.Stop.{stop-loses}
use flconc.Comm.Log.Logger.{Event, rpc_line, app_line, syncs, rpc_round, app_round, init, run}
use flconc.Comm.Log.Logger.Drains.{excute-drains}
use flconc.Comm.Log.Logger.Account.{content, rpc_lines, app_lines, run-Complete}

abbrev line : Bytes
line = b'a' ∷ 10 ∷ []

abbrev other_line : Bytes
other_line = b'b' ∷ 10 ∷ []

-- The file is past the size.
abbrev answers : Answers
answers = record { date = b'1' ∷ []; opens = true; size = 9; opens_next = true }

abbrev events : List Event
events =
    rpc_line line
    ∷ app_line other_line
    ∷ syncs
    ∷ rpc_line other_line
    ∷ rpc_round answers
    ∷ syncs
    ∷ app_round answers
    ∷ app_line line
    ∷ []

-- A thread with two batches, before its first round.
abbrev logger : AsyncLogger
logger = record {
  m_file_name = b'f' ∷ [];
  m_file_path = b'/' ∷ [];
  m_max_size = 5;
  m_log_type = rpc_log;
  m_tasks = (line ∷ [] ∷ []) ∷ (other_line ∷ []) ∷ [];
  m_no = 0;
  m_need_reopen = true;
  m_file_handle = none;
  m_date = [];
  m_stop = false;
  is_ended = false;
  written = [];
}

run-Complete_example : Returns (run events (init 2 (b'f' ∷ []) (b'/' ∷ []) 5 500)) (λ l.
    (content l.m_async_rpc_logger ++ join l.buffers.m_buffer ≡ join (rpc_lines events))
    × (content l.m_async_app_logger ++ join l.buffers.m_app_buffer ≡ join (app_lines events)))
run-Complete_example =
    run-Complete events 2 (b'f' ∷ []) (b'/' ∷ []) 5 500 ((refl, refl), ((refl, refl), tt))

excute_round-Wrote_example :
    Returns
      (excute_round answers logger)
      (Wrote answers (line ∷ [] ∷ []) (record logger { m_tasks = (other_line ∷ []) ∷ [] }))
excute_round-Wrote_example =
    excute_round-Wrote answers (line ∷ [] ∷ []) ((other_line ∷ []) ∷ []) logger refl refl (inl refl)
      refl refl

stop-loses_example :
    (excute_round answers (stop (record logger { m_tasks = [] })) ≡ none)
    × Returns (excute (answers ∷ answers ∷ []) (stop logger)) (λ l.
      (l.m_tasks ≡ (other_line ∷ []) ∷ [])
      × (l.written ≡ logger.written ++ lines_to (full_file_name l) (line ∷ [] ∷ [])))
stop-loses_example =
    stop-loses answers (answers ∷ []) (line ∷ [] ∷ []) ((other_line ∷ []) ∷ []) logger refl refl
      (inl refl) refl refl

excute-drains_example :
    Returns
      (excute (answers ∷ answers ∷ []) logger)
      (λ l. (l.m_tasks ≡ []) × (texts l.written ≡ content logger))
excute-drains_example =
    excute-drains (answers ∷ answers ∷ []) logger ((refl, refl), ((refl, refl), tt))
      (refl, refl, inl refl) (omega arith)
