-- ===== src/Comm/Log/Writes.antt =====
-- flconc/comm/log.cc: what a round of the writing thread does to the files.
use flconc.Base.{
  ℕ, ◌+◌, ◌≡◌, refl, sym, ap, ◌∙◌, ◌⊎◌, inl, inr, true, false, Bytes, List, [], ◌∷◌, ◌++◌, none,
  some, ltb, same_bytes, same_bytes→eq, Bool-cases, Returns, append_assoc, if◌then◌else◌,
}
use flconc.Comm.Log.Async.{
  AsyncLogger, Answers, full_file_name, check_date, check_handle, reopen, roll, write_all,
  write_batch, take_batch, excute_round, is_open,
}

-- The strings, one behind the other.
unfoldable pub join : List Bytes → Bytes
join [] = []
join (x ∷ xs) = x ++ join xs

pub join-append : (xs ys : List Bytes) → join (xs ++ ys) ≡ join xs ++ join ys
unfolding join
join-append [] ys = refl
join-append (x ∷ xs) ys =
    ap (λ t. x ++ t) (join-append xs ys) ∙ sym (append_assoc x (join xs) (join ys))

-- What the calls of `fwrite` wrote, whatever the files.
unfoldable pub texts : List (Bytes × Bytes) → Bytes
texts [] = []
texts ((name, text) ∷ calls) = text ++ texts calls

pub texts-append : (xs ys : List (Bytes × Bytes)) → texts (xs ++ ys) ≡ texts xs ++ texts ys
unfolding texts
texts-append [] ys = refl
texts-append ((name, x) ∷ xs) ys =
    ap (λ t. x ++ t) (texts-append xs ys) ∙ sym (append_assoc x (texts xs) (texts ys))

-- The lines of a batch that are not empty, as calls on one file.
unfoldable pub lines_to : Bytes → List Bytes → List (Bytes × Bytes)
lines_to name [] = []
lines_to name ([] ∷ tmp) = lines_to name tmp
lines_to name ((c ∷ cs) ∷ tmp) = (name, c ∷ cs) ∷ lines_to name tmp

write_all-lines_to :
    (tmp : List Bytes) (name : Bytes) → write_all tmp (some name) ≡ some (lines_to name tmp)
unfolding write_all lines_to
write_all-lines_to [] name = refl
write_all-lines_to ([] ∷ tmp) name = write_all-lines_to tmp name
write_all-lines_to ((c ∷ cs) ∷ tmp) name = rw (write_all-lines_to tmp name)

pub texts-lines_to : (name : Bytes) (tmp : List Bytes) → texts (lines_to name tmp) ≡ join tmp
unfolding texts lines_to join
texts-lines_to name [] = refl
texts-lines_to name ([] ∷ tmp) = texts-lines_to name tmp
texts-lines_to name ((c ∷ cs) ∷ tmp) = ap (λ t. (c ∷ cs) ++ t) (texts-lines_to name tmp)

-- The open file is the one that the date and the number name, or is opened again first.
abbrev pub Current : AsyncLogger → Type 0
Current l =
    (l.m_need_reopen ≡ true)
    ⊎ (l.m_file_handle ≡ none)
    ⊎ (l.m_file_handle ≡ some (full_file_name l))

-- Only the number, the date and the file change.
abbrev Keeps : AsyncLogger → AsyncLogger → Type 0
Keeps l l' = (l'.written ≡ l.written) × (l'.m_tasks ≡ l.m_tasks) × (l'.m_stop ≡ l.m_stop)

check_date-Current :
    (date : Bytes) (l : AsyncLogger)
    → Current l
    → ((check_date date l).m_date ≡ date)
      × Keeps l (check_date date l)
      × Current (check_date date l)
unfolding check_date
check_date-Current date l c = elim (Bool-cases (same_bytes l.m_date date)) [
  | inl e ↦ simp e (same_bytes→eq l.m_date date e, (refl, refl, refl), c)
  | inr e ↦ simp e (refl, (refl, refl, refl), inl refl)
]

-- The file named by the date and the number is open, and the date is as before.
abbrev Ready : AsyncLogger → AsyncLogger → Type 0
Ready l l' = (l'.m_date ≡ l.m_date) × Keeps l l' × (l'.m_file_handle ≡ some (full_file_name l'))

reopen-Ready : (l : AsyncLogger) → Current l → Ready l (reopen true (check_handle l))
unfolding reopen check_handle full_file_name
reopen-Ready l c = elim (Bool-cases l.m_need_reopen) [
  | inl n ↦ elim (Bool-cases (is_open l.m_file_handle)) [
    | inl o ↦ simp (o, n) (refl, (refl, refl, refl), refl)
    | inr o ↦ simp (o, n) (refl, (refl, refl, refl), refl)
  ]
  | inr n ↦ elim c [
    | inl t ↦ absurd (cc (sym n ∙ t))
    | inr (inl h) ↦
        let o : is_open l.m_file_handle ≡ false = ap is_open h in
        simp (o, n) (refl, (refl, refl, refl), refl)
    | inr (inr h) ↦
        let o : is_open l.m_file_handle ≡ true = ap is_open h in
        simp (o, n) (refl, (refl, refl, refl), h)
  ]
]

roll-Ready :
    (size : ℕ) (l : AsyncLogger)
    → l.m_file_handle ≡ some (full_file_name l)
    → Returns
        (roll size true l)
        (λ l'. Ready l l' × (l'.m_no ≡ (if ltb l.m_max_size size then l.m_no + 1 else l.m_no)))
unfolding roll full_file_name
roll-Ready size l h =
    let o : is_open l.m_file_handle ≡ true = ap is_open h in
    let next : AsyncLogger = record l { m_no = l.m_no + 1 } in
    elim (Bool-cases (ltb l.m_max_size size)) [
      | inl e ↦ (
        record next { m_file_handle = some (full_file_name next); m_need_reopen = false },
        simp (o, e),
        ((refl, (refl, refl, refl), refl), simp e),
      )
      | inr e ↦ (l, simp (o, e), ((refl, (refl, refl, refl), h), simp e))
    ]

-- The number of the file that a round writes to: one that is past the size is followed by the next.
unfoldable pub next_number : Answers → AsyncLogger → ℕ
next_number a l =
    let no : ℕ = if same_bytes l.m_date a.date then l.m_no else 0 in
    if ltb l.m_max_size a.size then no + 1 else no

number-prepared :
    (a : Answers) (l : AsyncLogger)
    → ((reopen true (check_handle (check_date a.date l))).m_no
        ≡ (if same_bytes l.m_date a.date then l.m_no else 0))
      × ((reopen true (check_handle (check_date a.date l))).m_max_size ≡ l.m_max_size)
unfolding reopen check_handle check_date
number-prepared a l = elim (Bool-cases (same_bytes l.m_date a.date)) [
  | inl e ↦ elim (Bool-cases (is_open l.m_file_handle)) [
    | inl o ↦ elim (Bool-cases l.m_need_reopen) [
      | inl n ↦ simp (e, o, n) (refl, refl)
      | inr n ↦ simp (e, o, n) (refl, refl)
    ]
    | inr o ↦ simp (e, o) (refl, refl)
  ]
  | inr e ↦ elim (Bool-cases (is_open l.m_file_handle)) [
    | inl o ↦ simp (e, o) (refl, refl)
    | inr o ↦ simp (e, o) (refl, refl)
  ]
]

-- What a round with the batch `tmp` leaves: its lines that are not empty written, in order, to the file of
-- the day, with the number that follows, and that file open; the rest of the queue and the flag as they were; and whether the
-- thread has ended, as the flag says.
pub record Wrote (a : Answers) (tmp : List Bytes) (l l' : AsyncLogger) : Type 0 where
  pub is_dated : l'.m_date ≡ a.date
  pub number : l'.m_no ≡ next_number a l
  pub lines : l'.written ≡ l.written ++ lines_to (full_file_name l') tmp
  pub same_tasks : l'.m_tasks ≡ l.m_tasks
  pub same_stop : l'.m_stop ≡ l.m_stop
  pub ends : l'.is_ended ≡ l.m_stop
  pub handle : l'.m_file_handle ≡ some (full_file_name l')

write_batch-Wrote :
    (a : Answers) (tmp : List Bytes) (l : AsyncLogger)
    → a.opens ≡ true
    → a.opens_next ≡ true
    → Current l
    → Returns (write_batch a tmp l) (Wrote a tmp l)
unfolding write_batch full_file_name next_number
write_batch-Wrote a tmp l o o' c =
    let (d, (w, t, s), c') = check_date-Current a.date l c in
    let l₁ : AsyncLogger = check_date a.date l in
    let (d', (w', t', s'), h) = reopen-Ready l₁ c' in
    let (l₂, e, ((d'', (w'', t'', s''), h'), n)) =
      roll-Ready a.size (reopen true (check_handle l₁)) h in
    (
      record l₂ { written = l₂.written ++ lines_to (full_file_name l₂) tmp; is_ended = l₂.m_stop },
      simp (o, o', e, h', write_all-lines_to tmp (full_file_name l₂)),
      record {
        is_dated = d'' ∙ d' ∙ d;
        number = n ∙ simp (number-prepared a l).1 (simp (number-prepared a l).0);
        lines = ap (λ x. x ++ lines_to (full_file_name l₂) tmp) (w'' ∙ w' ∙ w);
        same_tasks = t'' ∙ t' ∙ t;
        same_stop = s'' ∙ s' ∙ s;
        ends = s'' ∙ s' ∙ s;
        handle = h';
      },
    )

excute_round-takes :
    (a : Answers) (tmp : List Bytes) (rest : List (List Bytes)) (l : AsyncLogger)
    → l.is_ended ≡ false
    → l.m_tasks ≡ tmp ∷ rest
    → excute_round a l ≡ write_batch a tmp (record l { m_tasks = rest })
unfolding excute_round take_batch
excute_round-takes a tmp rest l n t = simp (n, t)

-- With a batch in front, an open file that is the current one or is opened again, and `fopen` succeeding,
-- a round of the thread takes the batch and writes its lines that are not empty, in order, to the
-- file of the day: number 0 on a new day, the next number when the file is past the size. The
-- thread ends when it was told to stop, whatever else is in the queue.
pub excute_round-Wrote :
    (a : Answers) (tmp : List Bytes) (rest : List (List Bytes)) (l : AsyncLogger)
    → a.opens ≡ true
    → a.opens_next ≡ true
    → Current l
    → l.is_ended ≡ false
    → l.m_tasks ≡ tmp ∷ rest
    → Returns (excute_round a l) (Wrote a tmp (record l { m_tasks = rest }))
unfolding full_file_name
excute_round-Wrote a tmp rest l o o' c n t =
    let c' : Current (record l { m_tasks = rest }) = c in
    let (l', e, w) = write_batch-Wrote a tmp (record l { m_tasks = rest }) o o' c' in
    (l', excute_round-takes a tmp rest l n t ∙ e, w)
