-- ===== src/Net/FdEvent/Container.antt =====
-- flconc/net/base/fd_event.cc: `getFdEvent` returns the event of the descriptor.
use flconc.Base.{
  ℕ, zero, suc, ◌+◌, ◌-◌, ◌*◌, ◌/◌, ◌<◌, ◌≤◌, ◌≡◌, refl, sym, ap, ◌∙◌, List, [], ◌∷◌, ◌++◌, ltb,
  length, get_elem?, arith, Returns, Bool-cases, inl, inr, ◌⊎◌, ltb→lt, append-nil, length-append,
  false,
}
use flconc.Base.Int.{pos}
use flconc.Net.FdEvent.{FdEvent, new_fd_event, push_fds, grow_fds, get_fd_event}

-- The event at place `k` is that of descriptor `i + k`.
unfoldable pub From : ℕ → List FdEvent → Type 0
From i [] = Unit {0}
From i (e ∷ es) = (e.m_fd ≡ pos i) × From (suc i) es

push_fds-From : (rounds i : ℕ) → From i (push_fds rounds i) × (length (push_fds rounds i) ≡ rounds)
unfolding From push_fds new_fd_event
push_fds-From zero i = (tt, refl)
push_fds-From (suc rounds) i = let (f, l) = push_fds-From rounds (suc i) in ((refl, f), ap suc l)

From-append :
    (i j : ℕ) (es fs : List FdEvent) → j ≡ i + length es → From i es → From j fs → From i (es ++ fs)
unfolding From
From-append i j [] fs e f g = let same : j ≡ i = omega arith in rw same at g
From-append i j (x ∷ es) fs e f g = (f.0, From-append (suc i) j es fs (omega arith) f.1 g)

From-get :
    (i k : ℕ) (es : List FdEvent)
    → From i es
    → k < length es
    → Returns (get_elem? es k) (λ e. e.m_fd ≡ pos (i + k))
unfolding From
From-get i k [] f h = absurd (omega arith)
From-get i zero (e ∷ es) f h = let same : i ≡ i + 0 = omega arith in (e, refl, f.0 ∙ ap pos same)
From-get i (suc k) (e ∷ es) f h =
    let same : suc i + k ≡ i + suc k = omega arith in
    let (x, g, p) = From-get (suc i) k es f.1 (omega arith) in (x, g, p ∙ ap pos same)

grown_past :
    (fd : ℕ) (fds : List FdEvent)
    → (fd < length fds) ⊎ (2 ≤ fd)
    → ltb fd (length fds) ≡ false
    → (length fds ≤ fd) × (fd < fd * 3 / 2)
grown_past fd fds (inl h) e = ground arith
grown_past fd fds (inr h) e = (ground arith, omega (arith, h))

-- Each event of a container is that of its place. Then `getFdEvent` of a descriptor that is inside, or
-- from 2 on, returns the event of that descriptor, and the container is as before, or grown behind
-- what it held; below 2 it indexes outside a container that does not hold the descriptor.
pub get_fd_event-From :
    (fd : ℕ) (fds : List FdEvent)
    → From 0 fds
    → (fd < length fds) ⊎ (2 ≤ fd)
    → Returns
        (get_fd_event (pos fd) fds)
        (λ r. (r.0.m_fd ≡ pos fd) × From 0 r.1 × ((more : List FdEvent) × (r.1 ≡ fds ++ more)))
unfolding get_fd_event grow_fds
get_fd_event-From fd fds f h = elim (Bool-cases (ltb fd (length fds))) [
  | inl inside ↦
      let (e, g, p) = From-get 0 fd fds f (ltb→lt fd (length fds) inside) in
      rw (inside, g) ((e, fds), refl, (p ∙ ap pos (omega arith), f, ([], sym (append-nil fds))))
  | inr outside ↦
      let more : List FdEvent = push_fds (fd * 3 / 2 - length fds) (length fds) in
      let (from, size) = push_fds-From (fd * 3 / 2 - length fds) (length fds) in
      let held : From 0 (fds ++ more) = From-append 0 (length fds) fds more (omega arith) f from in
      let (e, g, p) =
        From-get 0 fd (fds ++ more) held
          (omega (arith, length-append fds more, size, grown_past fd fds h outside)) in
      rw (outside, g) ((e, fds ++ more), refl, (p ∙ ap pos (omega arith), held, (more, refl)))
]
