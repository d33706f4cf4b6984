-- ===== src/Comm/Log/Stop.antt =====
-- flconc/comm/log.cc: what the end of a writing thread leaves unwritten.
use flconc.Base.{◌≡◌, refl, true, false, Bytes, List, [], ◌∷◌, ◌++◌, none, some, Returns}
use flconc.Comm.Log.Async.{
  take_batch, AsyncLogger, Answers, stop, excute, full_file_name, excute_round,
}
use flconc.Comm.Log.Writes.{lines_to, Current, excute_round-Wrote}

excute-ended :
    (later : List Answers) (l : AsyncLogger) → l.is_ended ≡ true → excute later l ≡ some l
unfolding excute excute_round
excute-ended [] l e = refl
excute-ended (a ∷ later) l e = simp e (simp (excute-ended later l e))

-- A thread that is told to stop while its queue is empty takes the front of an empty queue; and one that
-- has more than one batch in its queue writes the first and ends: the others are never written,
-- however many rounds follow.
pub stop-loses :
    (a : Answers) (later : List Answers) (tmp : List Bytes) (rest : List (List Bytes))
    (l : AsyncLogger)
    → a.opens ≡ true
    → a.opens_next ≡ true
    → Current l
    → l.is_ended ≡ false
    → l.m_tasks ≡ tmp ∷ rest
    → (excute_round a (stop (record l { m_tasks = [] })) ≡ none)
      × Returns
          (excute (a ∷ later) (stop l))
          (λ l'. (l'.m_tasks ≡ rest) × (l'.written ≡ l.written ++ lines_to (full_file_name l') tmp))
unfolding excute_round take_batch full_file_name stop excute
stop-loses a later tmp rest l o o' c n t =
    let c' : Current (stop l) = c in
    let (l', e, w) = excute_round-Wrote a tmp rest (stop l) o o' c' n t in
    (simp n, (l', simp (e, excute-ended later l' w.ends), (w.same_tasks, w.lines)))
