-- ===== src/Comm/Log/Logger/Account.antt =====
-- flconc/comm/log.cc: every line reaches the files once, in order, and in the files of its kind.
use flconc.Base.{
  ℕ, zero, suc, ◌≡◌, refl, sym, ap, ap₂, ◌∙◌, inl, inr, true, false, Bytes, List, [], ◌∷◌, ◌++◌,
  replicate, Returns, append_assoc, append-nil,
}
use flconc.Comm.Log.{push_rpc_log, push_app_log}
use flconc.Comm.Log.Async.{
  AsyncLogger, Answers, new_async_logger, push, excute_round, full_file_name,
}
use flconc.Comm.Log.Writes.{
  join, join-append, texts, texts-append, texts-lines_to, lines_to, Current, excute_round-Wrote,
}
use flconc.Comm.Log.Logger.{
  Logger, init, loop_func, Event, rpc_line, app_line, syncs, rpc_round, app_round, handle, run,
}

-- The batches of a queue, one behind the other.
unfoldable pub queued : List (List Bytes) → Bytes
queued [] = []
queued (b ∷ bs) = join b ++ queued bs

queued-append : (xs ys : List (List Bytes)) → queued (xs ++ ys) ≡ queued xs ++ queued ys
unfolding queued
queued-append [] ys = refl
queued-append (x ∷ xs) ys =
    ap (λ t. join x ++ t) (queued-append xs ys)
    ∙ sym (append_assoc (join x) (queued xs) (queued ys))

-- What a thread has written, and then what is in its queue.
abbrev pub content : AsyncLogger → Bytes
content l = texts l.written ++ queued l.m_tasks

-- A thread at work: not told to stop, and with the current file.
abbrev pub Works : AsyncLogger → Type 0
Works l = (l.m_stop ≡ false) × (l.is_ended ≡ false) × Current l

push-content :
    (b : List Bytes) (l : AsyncLogger)
    → Works l
    → (content (push b l) ≡ content l ++ join b) × Works (push b l)
unfolding push join queued full_file_name
push-content [] l w = (sym (append-nil (content l)), w)
push-content (x ∷ b) l w = (
  ap (λ t. texts l.written ++ t)
        (queued-append l.m_tasks ((x ∷ b) ∷ [])
          ∙ ap (λ t. queued l.m_tasks ++ t) (append-nil (x ++ join b)))
      ∙ sym (append_assoc (texts l.written) (queued l.m_tasks) (x ++ join b)),
  w,
)

-- Rounds whose `fopen` succeeds.
abbrev pub Opens : Answers → Type 0
Opens a = (a.opens ≡ true) × (a.opens_next ≡ true)

pub round-content :
    (a : Answers) (ts : List (List Bytes)) (l : AsyncLogger)
    → Opens a
    → Works l
    → l.m_tasks ≡ ts
    → Returns (excute_round a l) (λ l'. (content l' ≡ content l) × Works l')
unfolding queued full_file_name excute_round
round-content a [] l o (s, n, c) t = (l, simp (n, t, s), (refl, (s, n, c)))
round-content a (b ∷ ts) l (o, o') (s, n, c) t =
    let (l', e, w) = excute_round-Wrote a b ts l o o' c n t in
    let name : Bytes = full_file_name l' in
    let same : content l' ≡ content l =
      ap₂ (λ v t. texts v ++ queued t) w.lines w.same_tasks
      ∙ ap (λ x. x ++ queued ts)
          (texts-append l.written (lines_to name b)
            ∙ ap (λ x. texts l.written ++ x) (texts-lines_to name b))
      ∙ append_assoc (texts l.written) (join b) (queued ts)
      ∙ ap (λ x. texts l.written ++ queued x) (sym t) in
    (l', e, (same, (w.same_stop ∙ s, w.ends ∙ s, inr (inr w.handle))))

-- The lines of each kind that are logged.
unfoldable pub rpc_lines : List Event → List Bytes
rpc_lines [] = []
rpc_lines (rpc_line msg ∷ es) = msg ∷ rpc_lines es
rpc_lines (app_line msg ∷ es) = rpc_lines es
rpc_lines (syncs ∷ es) = rpc_lines es
rpc_lines (rpc_round a ∷ es) = rpc_lines es
rpc_lines (app_round a ∷ es) = rpc_lines es

unfoldable pub app_lines : List Event → List Bytes
app_lines [] = []
app_lines (rpc_line msg ∷ es) = app_lines es
app_lines (app_line msg ∷ es) = msg ∷ app_lines es
app_lines (syncs ∷ es) = app_lines es
app_lines (rpc_round a ∷ es) = app_lines es
app_lines (app_round a ∷ es) = app_lines es

-- Every `fopen` of a round succeeds.
abbrev pub AllOpen : List Event → Type 0
AllOpen [] = Unit {0}
AllOpen (rpc_line msg ∷ es) = AllOpen es
AllOpen (app_line msg ∷ es) = AllOpen es
AllOpen (syncs ∷ es) = AllOpen es
AllOpen (rpc_round a ∷ es) = Opens a × AllOpen es
AllOpen (app_round a ∷ es) = Opens a × AllOpen es

-- What a thread has written, what is in its queue, and what is in the buffer before it.
abbrev pub Holds : AsyncLogger → List Bytes → Bytes → Type 0
Holds l buffer text = (content l ++ join buffer ≡ text) × Works l

line-Holds :
    (l : AsyncLogger) (buffer : List Bytes) (msg text : Bytes)
    → Holds l buffer text
    → Holds l (buffer ++ msg ∷ []) (text ++ msg)
unfolding join
line-Holds l buffer msg text (e, w) = (
  ap (λ t. content l ++ t)
        (join-append buffer (msg ∷ []) ∙ ap (λ t. join buffer ++ t) (append-nil msg))
      ∙ sym (append_assoc (content l) (join buffer) msg)
      ∙ ap (λ t. t ++ msg) e,
  w,
)

push-Holds :
    (l : AsyncLogger) (buffer : List Bytes) (text : Bytes)
    → Holds l buffer text
    → Holds (push buffer l) [] text
unfolding join
push-Holds l buffer text (e, w) =
    let (c, w') = push-content buffer l w in (append-nil (content (push buffer l)) ∙ c ∙ e, w')

round-Holds :
    (a : Answers) (l : AsyncLogger) (buffer : List Bytes) (text : Bytes)
    → Opens a
    → Holds l buffer text
    → Returns (excute_round a l) (λ l'. Holds l' buffer text)
round-Holds a l buffer text o (e, w) =
    let (l', r, (c, w')) = round-content a l.m_tasks l o w refl in
    (l', r, (ap (λ t. t ++ join buffer) c ∙ e, w'))

-- Both kinds at once.
abbrev pub Accounts : Bytes → Bytes → Logger → Type 0
Accounts rpc app l =
    Holds l.m_async_rpc_logger l.buffers.m_buffer rpc
    × Holds l.m_async_app_logger l.buffers.m_app_buffer app

joined :
    (text : Bytes) (msg : Bytes) (more : List Bytes)
    → (text ++ msg) ++ join more ≡ text ++ join (msg ∷ more)
unfolding join
joined text msg more = append_assoc text msg (join more)

run-Accounts :
    (es : List Event) (rpc app : Bytes) (l : Logger)
    → AllOpen es
    → Accounts rpc app l
    → Returns (run es l) (Accounts (rpc ++ join (rpc_lines es)) (app ++ join (app_lines es)))
unfolding run handle rpc_lines app_lines loop_func push_rpc_log push_app_log join
run-Accounts [] rpc app l o (p, q) =
    (l, refl, ((p.0 ∙ sym (append-nil rpc), p.1), (q.0 ∙ sym (append-nil app), q.1)))
run-Accounts (rpc_line msg ∷ es) rpc app l o (p, q) =
    let l₁ : Logger = record l { buffers = push_rpc_log msg l.buffers } in
    let (l', e, (p', q')) =
      run-Accounts es (rpc ++ msg) app l₁ o
        (line-Holds l.m_async_rpc_logger l.buffers.m_buffer msg rpc p, q) in
    (l', e, ((p'.0 ∙ joined rpc msg (rpc_lines es), p'.1), q'))
run-Accounts (app_line msg ∷ es) rpc app l o (p, q) =
    let l₁ : Logger = record l { buffers = push_app_log msg l.buffers } in
    let (l', e, (p', q')) =
      run-Accounts es rpc (app ++ msg) l₁ o
        (p, line-Holds l.m_async_app_logger l.buffers.m_app_buffer msg app q) in
    (l', e, (p', (q'.0 ∙ joined app msg (app_lines es), q'.1)))
run-Accounts (syncs ∷ es) rpc app l o (p, q) = run-Accounts es rpc app (loop_func l) o (
  push-Holds l.m_async_rpc_logger l.buffers.m_buffer rpc p,
  push-Holds l.m_async_app_logger l.buffers.m_app_buffer app q,
)
run-Accounts (rpc_round a ∷ es) rpc app l (o, os) (p, q) =
    let (t, g, p') = round-Holds a l.m_async_rpc_logger l.buffers.m_buffer rpc o p in
    let (l', e, r) = run-Accounts es rpc app (record l { m_async_rpc_logger = t }) os (p', q) in
    (l', simp (g, e), r)
run-Accounts (app_round a ∷ es) rpc app l (o, os) (p, q) =
    let (t, g, q') = round-Holds a l.m_async_app_logger l.buffers.m_app_buffer app o q in
    let (l', e, r) = run-Accounts es rpc app (record l { m_async_app_logger = t }) os (p, q') in
    (l', simp (g, e), r)

join-replicate : (n : ℕ) → join (replicate n []) ≡ []
unfolding join
join-replicate zero = refl
join-replicate (suc n) = join-replicate n

-- On a logger that is not flushed and whose files can be opened, whatever the order of the lines, of the
-- rounds of the timer and of the rounds of the writing threads: what the thread of a kind has
-- written to its files, then what is in its queue, then what is in its buffer, is the text of the
-- lines that were logged of this kind, in order.
pub run-Complete :
    (es : List Event) (count : ℕ) (file_name file_path : Bytes) (max_size interval : ℕ)
    → AllOpen es
    → Returns (run es (init count file_name file_path max_size interval)) (λ l.
      (content l.m_async_rpc_logger ++ join l.buffers.m_buffer ≡ join (rpc_lines es))
      × (content l.m_async_app_logger ++ join l.buffers.m_app_buffer ≡ join (app_lines es)))
unfolding init new_async_logger texts queued
run-Complete es count file_name file_path max_size interval o =
    let l : Logger = init count file_name file_path max_size interval in
    let start : Accounts [] [] l = (
      (join-replicate count, (refl, refl, inr (inl refl))),
      (join-replicate count, (refl, refl, inr (inl refl))),
    ) in
    let (l', e, (p, q)) = run-Accounts es [] [] l o start in (l', e, (p.0, q.0))
