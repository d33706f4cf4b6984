-- ===== src/Tcp/Server/Idle/Active.antt =====
-- flconc/net/tcp: a connection that is read from often enough is not shut down.
use flconc.Base.{
  ℕ, zero, suc, ◌≡◌, refl, sym, ap, ◌∙◌, ◌⊎◌, inl, inr, Bool, true, false, List, [], ◌∷◌, ◌++◌,
  Option, none, some, if◌then◌else◌, ◌==◌, length, drop, arith, Returns, Bool-cases, drop-drop,
  length-append, ==_refl, ==_iff, subst,
}
use flconc.Tcp.TimeWheel.{
  Wheel, empty_bucket, contains, held, released, held-drop, released-held, held-drop_append,
  held-append, contains-append,
}
use flconc.Tcp.Server.Idle.{
  Idle, fresh_tcp_connection, is_held, refresh, run_tasks, shut_slots, take_bucket, loop_func,
  Event, reads, runs, ticks, handle, handle_events,
}
use flconc.Tcp.Server.Idle.Freshened.{fresh_all-safe}

-- How long a slot is safe: while its task waits, or for so many rounds of the timer. On a wheel of
-- `suc n` buckets a task that runs gives it `n` rounds.
unfoldable pub stays_fresh : ℕ → ℕ → Option ℕ → List Event → Bool
stays_fresh s n safe [] = true
stays_fresh s n safe (reads t ∷ es) = stays_fresh s n (if t == s then none else safe) es
stays_fresh s n none (runs ∷ es) = stays_fresh s n (some n) es
stays_fresh s n (some k) (runs ∷ es) = stays_fresh s n (some k) es
stays_fresh s n none (ticks ∷ es) = stays_fresh s n none es
stays_fresh s n (some zero) (ticks ∷ es) = false
stays_fresh s n (some (suc k)) (ticks ∷ es) = stays_fresh s n (some k) es

abbrev pub IsSafe : ℕ → Option ℕ → Idle → Type 0
IsSafe s none i = contains s i.pending ≡ true
IsSafe s (some k) i = held s (drop k i.m_wheel) ≡ true

module _ (s n : ℕ) where
  -- A round of the timer, where the slot is held by a task or by a bucket that stays.
  tick-safe :
      (i : Idle)
      → length i.m_wheel ≡ suc n
      → (w : Wheel) → i.m_wheel ≡ w
      → (contains s i.pending ≡ true) ⊎ (held s (drop 1 w) ≡ true)
      → Returns (loop_func i) (λ i'.
        (length i'.m_wheel ≡ suc n)
        × (i'.connections s ≡ i.connections s)
        × (i'.pending ≡ i.pending)
        × (i'.m_wheel ≡ drop 1 w ++ empty_bucket ∷ []))
  unfolding loop_func take_bucket shut_slots
  tick-safe i l [] e a = absurd (omega (arith, ap length e))
  tick-safe i l (b ∷ rest) e a =
      let w : Wheel = rest ++ empty_bucket ∷ [] in
      let stays : held s (i.pending ∷ w) ≡ true =
        ground (arith, a, held-append s rest (empty_bucket ∷ [])) in
      let kept : contains s (released b (i.pending ∷ w)) ≡ false =
        released-held s b (i.pending ∷ w) stays in
      (
        record i {
          m_wheel = w;
          connections = shut_slots (released b (i.pending ∷ w)) i.connections;
        },
        simp e,
        (
          omega (arith, length-append rest (empty_bucket ∷ []), l, ap length e),
          simp kept,
          refl,
          refl,
        ),
      )

  -- A slot that is safe is held by some pointer.
  safe-held : (safe : Option ℕ) (i : Idle) → IsSafe s safe i → is_held s i ≡ true
  unfolding is_held
  safe-held none i h = ground (arith, h)
  safe-held (some k) i h = ground (arith, held-drop k s i.m_wheel h)

  refresh-same :
      (t : ℕ) (i : Idle)
      → ((refresh t i).m_wheel ≡ i.m_wheel) × ((refresh t i).connections ≡ i.connections)
  unfolding refresh fresh_tcp_connection
  refresh-same t i = elim (Bool-cases (is_held t i)) [
    | inl e ↦ simp e (refl, refl)
    | inr e ↦ simp e (refl, refl)
  ]

  refresh-pending :
      (t : ℕ) (i : Idle) → contains s i.pending ≡ true → contains s (refresh t i).pending ≡ true
  unfolding refresh fresh_tcp_connection
  refresh-pending t i h = elim (Bool-cases (is_held t i)) [
    | inl e ↦ simp e (ground (arith, contains-append s i.pending (t ∷ [])))
    | inr e ↦ simp e h
  ]

  refresh-other :
      (t : ℕ) (safe : Option ℕ) (i : Idle) → IsSafe s safe i → IsSafe s safe (refresh t i)
  refresh-other t none i h = refresh-pending t i h
  refresh-other t (some k) i h = subst (λ w. held s (drop k w) ≡ true) (sym (refresh-same t i).0) h

  refresh-IsSafe :
      (t : ℕ) (safe : Option ℕ) (i : Idle)
      → IsSafe s safe i
      → IsSafe s (if t == s then none else safe) (refresh t i)
  unfolding refresh fresh_tcp_connection
  refresh-IsSafe t safe i h = elim (Bool-cases (t == s)) [
    | inl e ↦
        let is : t ≡ s = (==_iff t s).0 e in
        rw (e, is, safe-held safe i h)
          (ground (arith, contains-append s i.pending (s ∷ []), ==_refl s))
    | inr e ↦ rw e (refresh-other t safe i h)
  ]

  run_tasks-safe :
      (safe : Option ℕ) (i : Idle)
      → length i.m_wheel ≡ suc n
      → Returns (run_tasks i) (λ i'.
        (length i'.m_wheel ≡ suc n)
        × (i'.connections ≡ i.connections)
        × ((k : ℕ) → held s (drop k i.m_wheel) ≡ true → held s (drop k i'.m_wheel) ≡ true)
        × (contains s i.pending ≡ true → held s (drop n i'.m_wheel) ≡ true))
  unfolding run_tasks
  run_tasks-safe safe i l =
      let (w, e, (l', keep, last)) = fresh_all-safe s n i.pending i.m_wheel l in
      (record i { m_wheel = w; pending = [] }, simp e, (l', refl, keep, last))

  -- On a wheel of `n` + 1 buckets, whatever is read, run and timed in whatever order: a slot that is safe at
  -- first, and is refreshed again before its rounds are over, each refreshment keeping it safe while
  -- its task waits and for `n` rounds of the timer once it has run, is never destroyed: its
  -- connection is as it was, and nothing faults.
  pub handle_events-active :
      (es : List Event) (safe : Option ℕ) (i : Idle)
      → length i.m_wheel ≡ suc n
      → IsSafe s safe i
      → stays_fresh s n safe es ≡ true
      → Returns (handle_events es i) (λ i'. i'.connections s ≡ i.connections s)
  unfolding handle_events handle stays_fresh
  handle_events-active [] safe i l a f = (i, refl, refl)
  handle_events-active (reads t ∷ es) safe i l a f =
      let (same, kept) = refresh-same t i in
      let (i', e, p) =
        handle_events-active es (if t == s then none else safe) (refresh t i) (ap length same ∙ l)
          (refresh-IsSafe t safe i a) f in
      (i', e, p ∙ ap (λ c. c s) kept)
  handle_events-active (runs ∷ es) none i l a f =
      let (i₁, e, (l', same, keep, last)) = run_tasks-safe none i l in
      let (i', g, p) = handle_events-active es (some n) i₁ l' (last a) f in
      (i', simp (e, g), p ∙ ap (λ c. c s) same)
  handle_events-active (runs ∷ es) (some k) i l a f =
      let (i₁, e, (l', same, keep, last)) = run_tasks-safe none i l in
      let (i', g, p) = handle_events-active es (some k) i₁ l' (keep k a) f in
      (i', simp (e, g), p ∙ ap (λ c. c s) same)
  handle_events-active (ticks ∷ es) none i l a f =
      let (i₁, e, (l', same, waiting, _)) = tick-safe i l i.m_wheel refl (inl a) in
      let (i', g, p) = handle_events-active es none i₁ l' (ap (contains s) waiting ∙ a) f in
      (i', simp (e, g), p ∙ same)
  handle_events-active (ticks ∷ es) (some zero) i l a f = absurd (cc f)
  handle_events-active (ticks ∷ es) (some (suc k)) i l a f =
      let behind : held s (drop k (drop 1 i.m_wheel)) ≡ true =
        ap (held s) (drop-drop 1 k (suc k) i.m_wheel (omega arith)) ∙ a in
      let (i₁, e, (l', same, _, w)) =
        tick-safe i l i.m_wheel refl (inr (held-drop k s (drop 1 i.m_wheel) behind)) in
      let up : held s (drop k i₁.m_wheel) ≡ true =
        ap (λ v. held s (drop k v)) w
        ∙ held-drop_append k s (drop 1 i.m_wheel) (empty_bucket ∷ []) behind in
      let (i', g, p) = handle_events-active es (some k) i₁ l' up f in (i', simp (e, g), p ∙ same)
