-- ===== src/Net/Timer/Fire.antt =====
-- flconc/net/base/timer.cc: which events fire, which entry is deleted, and when the timer goes off.
use flconc.Base.{
  ℕ, ◌+◌, ◌-◌, ◌≤◌, ◌<◌, ◌≡◌, ◌≢◌, refl, ap, Bool, true, false, List, [], ◌∷◌, ◌++◌, some, arith,
  leb, ◌&&◌, if◌then◌else◌, inl, inr, ◌⊎◌, subst,
}
use flconc.Net.Timer.{
  TimerEvent, Pending, Timer, rearm, reset_arrive_time, erase_found, del_timer_event, due,
  left_over, on_timer, last_time, tasks_of, repeat_events,
}
use flconc.Net.Timer.Order.{From, IsSorted}

-- No entry's event is cancelled.
abbrev pub NoneCancled : (ℕ → TimerEvent) → List Pending → Type 0
NoneCancled events [] = Unit {0}
NoneCancled events (q ∷ qs) = ((events q.event).m_is_cancled ≡ false) × NoneCancled events qs

-- The entries up to `now`, by a filter: what should fire.
pub arrived : ℕ → List Pending → List Pending
arrived now [] = []
arrived now (q ∷ qs) = if leb q.time now then q ∷ arrived now qs else arrived now qs

pub later : ℕ → List Pending → List Pending
later now [] = []
later now (q ∷ qs) = if leb q.time now then later now qs else q ∷ later now qs

arrived-From : (now t : ℕ) (qs : List Pending) → now < t → From t qs → arrived now qs ≡ []
unfolding arrived
arrived-From now t [] h f = refl
arrived-From now t (q ∷ qs) h f = ground (arith, arrived-From now t qs h f.1)

later-From : (now t : ℕ) (qs : List Pending) → now < t → From t qs → later now qs ≡ qs
unfolding later
later-From now t [] h f = refl
later-From now t (q ∷ qs) h f = ground (arith, later-From now t qs h f.1)

due-arrived :
    (events : ℕ → TimerEvent) (now : ℕ) (qs : List Pending)
    → IsSorted qs
    → NoneCancled events qs
    → (due events now qs ≡ arrived now qs) × (left_over events now qs ≡ later now qs)
unfolding due left_over arrived later
due-arrived events now [] s c = (refl, refl)
due-arrived events now (q ∷ qs) s c =
    ground (
      arith,
      due-arrived events now qs s.1 c.1,
      arrived-From now q.time qs,
      later-From now q.time qs,
    )

-- With no pending event cancelled, `onTimer` at time `now` runs the tasks of exactly the pending
-- events that have arrived, in the order of their times.
pub on_timer-arrived :
    (now : ℕ) (clock : ℕ → ℕ) (last : ℕ) (t : Timer)
    → IsSorted t.m_pending_events
    → NoneCancled t.events t.m_pending_events
    → (on_timer now clock last t).1 ≡ tasks_of t.events (arrived now t.m_pending_events)
unfolding on_timer
on_timer-arrived now clock last t s c =
    ap (tasks_of t.events) (due-arrived t.events now t.m_pending_events s c).0

and_false : (b : Bool) → (b && false) ≡ false
and_false true = refl
and_false false = refl

-- A cancelled event at the front keeps every event behind it from firing, however late it is.
pub on_timer_blocked :
    (now : ℕ) (clock : ℕ → ℕ) (last : ℕ) (t : Timer) (q : Pending) (qs : List Pending)
    → t.m_pending_events ≡ q ∷ qs
    → (t.events q.event).m_is_cancled ≡ true
    → ((on_timer now clock last t).1 ≡ [])
      × ((on_timer now clock last t).0.m_pending_events ≡ q ∷ qs)
unfolding on_timer due left_over reset_arrive_time tasks_of repeat_events
on_timer_blocked now clock last t q qs e c =
    rw (e, due, left_over) (rw (c, and_false (leb q.time now)) (refl, refl))

-- The search passes these entries: none is later, and none is the event.
abbrev pub Passed : ℕ → ℕ → List Pending → Type 0
Passed time a [] = Unit {0}
Passed time a (q ∷ qs) = ((q.time ≤ time) × (q.event ≢ a)) × Passed time a qs

erase_found-stop :
    (time a : ℕ) (before : List Pending) (q : Pending) (after : List Pending)
    → Passed time a before
    → (time < q.time) ⊎ ((q.time ≡ time) × (q.event ≡ a))
    → erase_found time a (before ++ (q ∷ after)) ≡ before ++ after
unfolding erase_found
erase_found-stop time a [] q after p h = ground arith
erase_found-stop time a (b ∷ before) q after p h =
    ground (arith, erase_found-stop time a before q after p.1)

-- `delTimerEvent` of a pending event takes out its entry and no other.
pub del_timer_event_pending :
    (a : ℕ) (t : Timer) (before : List Pending) (q : Pending) (after : List Pending)
    → t.m_pending_events ≡ before ++ (q ∷ after)
    → Passed (t.events a).m_arrive_time a before
    → q.time ≡ (t.events a).m_arrive_time
    → q.event ≡ a
    → (del_timer_event a t).m_pending_events ≡ before ++ after
unfolding del_timer_event
del_timer_event_pending a t before q after e p k m =
    rw e (erase_found-stop (t.events a).m_arrive_time a before q after p (inr (k, m)))

-- `delTimerEvent` of an event that is not pending takes out the first entry that is later, whatever
-- event it holds.
pub del_timer_event_other :
    (a : ℕ) (t : Timer) (before : List Pending) (q : Pending) (after : List Pending)
    → t.m_pending_events ≡ before ++ (q ∷ after)
    → Passed (t.events a).m_arrive_time a before
    → (t.events a).m_arrive_time < q.time
    → (del_timer_event a t).m_pending_events ≡ before ++ after
unfolding del_timer_event
del_timer_event_other a t before q after e p k =
    rw e (erase_found-stop (t.events a).m_arrive_time a before q after p (inl k))

-- Every entry has arrived by `time`.
abbrev pub Until : ℕ → List Pending → Type 0
Until time [] = Unit {0}
Until time (q ∷ qs) = (q.time ≤ time) × Until time qs

last_time-Until :
    (q : Pending) (qs : List Pending) (last : ℕ)
    → IsSorted (q ∷ qs)
    → last_time (q ∷ qs) ≡ some last
    → (q.time ≤ last) × Until last qs
unfolding last_time
last_time-Until q [] last s e = (ground arith, tt)
last_time-Until q (r ∷ qs) last s e =
    let (h, u) = last_time-Until r qs last s.1 e in (omega (arith, s.0.0), (h, u))

last_time-all :
    (qs : List Pending) (last : ℕ) → IsSorted qs → last_time qs ≡ some last → Until last qs
last_time-all [] last s e = tt
last_time-all (q ∷ qs) last s e = last_time-Until q qs last s e

-- `resetArriveTime` sets the timer for the last pending event: when it goes off, every pending
-- event has arrived.
pub reset_arrive_time-last :
    (now last : ℕ) (t : Timer)
    → IsSorted t.m_pending_events
    → last_time t.m_pending_events ≡ some last
    → now < last
    → ((reset_arrive_time now t).armed ≡ some (last - now))
      × Until (now + (last - now)) t.m_pending_events
unfolding reset_arrive_time
reset_arrive_time-last now last t s e h =
    let same : last ≡ now + (last - now) = omega arith in
    (
      rw (e, rearm) (ground arith),
      subst (λ k. Until k t.m_pending_events) same (last_time-all t.m_pending_events last s e),
    )
