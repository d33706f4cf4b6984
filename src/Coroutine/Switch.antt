-- ===== src/Coroutine/Switch.antt =====
-- flconc/coroutine/coroutine.cc: the thread-local coroutine pointers, and `Yield` and `Resume`, which
-- switch between the main coroutine and one other. The switch of the registers, `coctx_swap`, is
-- assembly: here control is at `t_cur_coroutine`. A coroutine is its address; null is `none`.
use flconc.Base.{
  refl, ==_refl, Bool-cases, List, [], ◌∷◌, ◌⊎◌, inl, inr, ◌≢◌, ℕ, ◌+◌, ◌≡◌, Bool, true, false, not,
  ◌||◌, Option, none, some, ◌==◌, if◌then◌else◌, arith,
}

pub record Coroutine : Type 0 where
  pub m_cor_id : ℕ
  pub m_is_in_cofunc : Bool
  pub m_can_resume : Bool
  pub m_call_back : Option ℕ

-- The thread's pointers, the coroutines by address, and the two counters.
pub record Thread : Type 0 where
  pub t_main_coroutine : Option ℕ
  pub t_cur_coroutine : Option ℕ
  pub t_cur_run_time : Option ℕ
  pub t_coroutine_count : ℕ
  pub t_cur_coroutine_id : ℕ
  pub coroutines : ℕ → Coroutine

-- Equality of two pointers.
abbrev pub same : Option ℕ → Option ℕ → Bool
same none none = true
same (some a) (some b) = a == b
same _ _ = false

abbrev pub update : (ℕ → Coroutine) → ℕ → Coroutine → ℕ → Coroutine
update cors a c b = if a == b then c else cors b

-- `Coroutine()`, at address `a`: it becomes the current coroutine.
unfoldable pub new_main : ℕ → Thread → Thread
new_main a t = record t {
  t_cur_coroutine = some a;
  t_coroutine_count = t.t_coroutine_count + 1;
  coroutines =
      update t.coroutines a
        (record { m_cor_id = 0; m_is_in_cofunc = false; m_can_resume = true; m_call_back = none });
}

unfoldable pub get_current_coroutine : ℕ → Thread → Option ℕ × Thread
get_current_coroutine a t = elim t.t_cur_coroutine [
  | none ↦ (some a, record (new_main a t) { t_main_coroutine = some a })
  | some c ↦ (some c, t)
]

unfoldable pub get_main_coroutine : ℕ → Thread → Option ℕ × Thread
get_main_coroutine a t = elim t.t_main_coroutine [
  | none ↦ (some a, record (new_main a t) { t_main_coroutine = some a })
  | some c ↦ (some c, t)
]

-- `Coroutine(size, stack_ptr)` at address `c`; `a` is where a main coroutine would be made.
unfoldable pub new_coroutine : ℕ → ℕ → Thread → Thread
new_coroutine a c t =
    let u = (get_main_coroutine a t).1 in
    record u {
      t_coroutine_count = u.t_coroutine_count + 1;
      t_cur_coroutine_id = u.t_cur_coroutine_id + 1;
      coroutines = update u.coroutines c (record {
        m_cor_id = u.t_cur_coroutine_id;
        m_is_in_cofunc = false;
        m_can_resume = true;
        m_call_back = none;
      });
    }

unfoldable pub set_call_back : ℕ → ℕ → Thread → Bool × Thread
set_call_back c cb t =
    if same (some c) t.t_main_coroutine
    then (false, t)
    else if (t.coroutines c).m_is_in_cofunc
    then (false, t)
    else (
      true,
      record t {
        coroutines =
            update t.coroutines c
              (record (t.coroutines c) { m_call_back = some cb; m_can_resume = true });
      },
    )

unfoldable pub is_main_coroutine : Thread → Bool
is_main_coroutine t = same t.t_main_coroutine none || same t.t_cur_coroutine t.t_main_coroutine

unfoldable pub yield : Thread → Thread
yield t =
    if same t.t_main_coroutine none
    then t
    else if same t.t_cur_coroutine t.t_main_coroutine
    then t
    else record t { t_cur_coroutine = t.t_main_coroutine; t_cur_run_time = none }

-- `!co || !co->m_can_resume`
abbrev pub cannot_resume : Option ℕ → Thread → Bool
cannot_resume none t = true
cannot_resume (some c) t = not (t.coroutines c).m_can_resume

unfoldable pub resume : Option ℕ → Thread → Thread
resume co t =
    if not (same t.t_cur_coroutine t.t_main_coroutine)
    then t
    else if same t.t_main_coroutine none
    then t
    else if cannot_resume co t
    then t
    else if same t.t_cur_coroutine co
    then t
    else record t { t_cur_coroutine = co; t_cur_run_time = co }

-- `CoFunction` of the coroutine at `c`, up to its callback, which runs where it is not null and behind
-- which `leave` follows.
unfoldable pub enter : ℕ → Thread → Thread
enter c t = record t {
  coroutines = update t.coroutines c (record (t.coroutines c) { m_is_in_cofunc = true });
}

unfoldable pub leave : ℕ → Thread → Thread
leave c t = yield (record t {
  coroutines = update t.coroutines c (record (t.coroutines c) { m_is_in_cofunc = false });
})

-- Control resumed from the main coroutine comes back to it by one `Yield`, whatever was resumed.
pub yield-resume :
    (t : Thread) (a : ℕ) (co : Option ℕ)
    → t.t_main_coroutine ≡ some a
    → t.t_cur_coroutine ≡ some a
    → ((yield (resume co t)).t_cur_coroutine ≡ some a)
      × ((yield (resume co t)).t_main_coroutine ≡ some a)
unfolding yield resume
yield-resume t a none m c = ground arith
yield-resume t a (some b) m c = ground arith

pub data Call : Type 0 where
  yields : Call
  resumes : Option ℕ → Call

pub call : Thread → Call → Thread
call t yields = yield t
call t (resumes co) = resume co t

pub calls : Thread → List Call → Thread
calls t [] = t
calls t (c ∷ cs) = calls (call t c) cs

-- The main coroutine is at `a`. Either control is there and no run time is current, or it is in
-- another coroutine, and the current run time is that one's.
abbrev pub IsConsistent : ℕ → Thread → Type 0
IsConsistent a t =
    (t.t_main_coroutine ≡ some a)
    × ((t.t_cur_coroutine ≡ some a) × (t.t_cur_run_time ≡ none)
        ⊎ (b : ℕ) × (b ≢ a) × (t.t_cur_coroutine ≡ some b) × (t.t_cur_run_time ≡ some b))

not_same : (b a : ℕ) → b ≢ a → (b == a) ≡ false
not_same b a n = ground arith

resume-IsConsistent :
    (a d : ℕ) (t : Thread)
    → t.t_main_coroutine ≡ some a
    → t.t_cur_coroutine ≡ some a
    → t.t_cur_run_time ≡ none
    → IsConsistent a (resume (some d) t)
unfolding resume
resume-IsConsistent a d t m c r = elim (Bool-cases (not (t.coroutines d).m_can_resume)) [
  | inl e ↦ rw (m, c, ==_refl a, e) (refl, inl (refl, r))
  | inr e ↦ elim (Bool-cases (a == d)) [
    | inl s ↦ rw (m, c, ==_refl a, e, s) (refl, inl (refl, r))
    | inr s ↦ rw (m, c, ==_refl a, e, s) (refl, inr (d, ground arith, refl, refl))
  ]
]

call-IsConsistent : (a : ℕ) (t : Thread) (c : Call) → IsConsistent a t → IsConsistent a (call t c)
unfolding call yield resume
call-IsConsistent a t yields (m, inl (c, r)) = rw (m, c, ==_refl a) (refl, inl (refl, r))
call-IsConsistent a t yields (m, inr (b, n, c, r)) =
    rw (m, c, not_same b a n) (refl, inl (refl, refl))
call-IsConsistent a t (resumes none) (m, inl (c, r)) = rw (m, c, ==_refl a) (refl, inl (refl, r))
call-IsConsistent a t (resumes none) (m, inr (b, n, c, r)) =
    rw (m, c, not_same b a n) (refl, inr (b, n, refl, r))
call-IsConsistent a t (resumes (some d)) (m, inl (c, r)) = resume-IsConsistent a d t m c r
call-IsConsistent a t (resumes (some d)) (m, inr (b, n, c, r)) =
    rw (m, c, not_same b a n) (refl, inr (b, n, refl, r))

-- Control starts in the main coroutine. After any calls of `Yield` and `Resume` the main coroutine
-- is the same, and the current run time is that of the coroutine that runs, or none in the main
-- coroutine.
pub calls-IsConsistent :
    (a : ℕ) (t : Thread) (cs : List Call) → IsConsistent a t → IsConsistent a (calls t cs)
unfolding calls
calls-IsConsistent a t [] h = h
calls-IsConsistent a t (c ∷ cs) h = calls-IsConsistent a (call t c) cs (call-IsConsistent a t c h)
