-- ===== src/Comm/Log/Logger/Drains.antt =====
-- flconc/comm/log.cc: the queue of a writing thread runs empty.
use mathlib.Core.Option.{some-injective}
use flconc.Base.{
  ◌≤◌, ◌≡◌, refl, sym, ap, ◌∙◌, List, [], ◌∷◌, ◌++◌, length, drop, length-drop, Returns, ℕ,
  append-nil, arith,
}
use flconc.Comm.Log.Async.{AsyncLogger, Answers, excute_round, excute}
use flconc.Comm.Log.Writes.{texts, excute_round-Wrote}
use flconc.Comm.Log.Logger.Account.{queued, content, Works, Opens, round-content}

abbrev pub EachOpens : List Answers → Type 0
EachOpens [] = Unit {0}
EachOpens (a ∷ later) = Opens a × EachOpens later

-- A round takes the front of the queue.
round-takes :
    (a : Answers) (ts : List (List (List ℕ))) (l : AsyncLogger)
    → Opens a
    → Works l
    → l.m_tasks ≡ ts
    → Returns
        (excute_round a l)
        (λ l'. (content l' ≡ content l) × Works l' × (l'.m_tasks ≡ drop 1 ts))
unfolding excute_round
round-takes a [] l o w t = (l, simp (w.1, t, w.0), (refl, w, t))
round-takes a (b ∷ ts) l (o, o') w t =
    let (l', e, wrote) = excute_round-Wrote a b ts l o o' w.2 w.1 t in
    let (l'', e', (same, works)) = round-content a (b ∷ ts) l (o, o') w t in
    let p : l'' ≡ l' = some-injective _ _ (sym e' ∙ e) in
    (l'', e', (same, works, ap (λ x. x.m_tasks) p ∙ wrote.same_tasks))

drains :
    (later : List Answers) (ts : List (List (List ℕ))) (l : AsyncLogger)
    → EachOpens later
    → Works l
    → l.m_tasks ≡ ts
    → length ts ≤ length later
    → Returns (excute later l) (λ l'. (l'.m_tasks ≡ []) × (texts l'.written ≡ content l))
unfolding excute queued
drains [] [] l o w t n = (
  l,
  refl,
  (t, sym (append-nil (texts l.written)) ∙ ap (λ q. texts l.written ++ queued q) (sym t)),
)
drains [] (b ∷ ts) l o w t n = absurd (omega arith)
drains (a ∷ later) ts l (o, os) w t n =
    let (l₁, e, (same, works, rest)) = round-takes a ts l o w t in
    let shorter : length (drop 1 ts) ≤ length later = omega (arith, length-drop 1 ts, n) in
    let (l', f, (empty, all)) = drains later (drop 1 ts) l₁ os works rest shorter in
    (l', simp (e, f), (empty, all ∙ same))

-- A thread at work whose files can be opened, given a round for each batch of its queue or more: the queue
-- is empty, and what was in it is written behind what was written before.
pub excute-drains :
    (later : List Answers) (l : AsyncLogger)
    → EachOpens later
    → Works l
    → length l.m_tasks ≤ length later
    → Returns (excute later l) (λ l'. (l'.m_tasks ≡ []) × (texts l'.written ≡ content l))
excute-drains later l o w n = drains later l.m_tasks l o w refl n
