-- ===== src/Net/Timer/Order.antt =====
-- flconc/net/base/timer.cc: the pending events stay in the order of their times.
use flconc.Base.{ℕ, suc, ◌≤◌, Bool, false, List, [], ◌∷◌, arith, ltb, Bool-cases, inl, inr}
use flconc.Net.Timer.{
  TimerEvent, Pending, Timer, emplace, reset_arrive_time, add_timer_event, erase_found,
  del_timer_event, is_due, due, left_over, repeat_event, repeat_events, on_timer,
}

-- No entry comes before `time`.
abbrev pub From : ℕ → List Pending → Type 0
From time [] = Unit {0}
From time (q ∷ qs) = (time ≤ q.time) × From time qs

abbrev pub IsSorted : List Pending → Type 0
IsSorted [] = Unit {0}
IsSorted (q ∷ qs) = From q.time qs × IsSorted qs

From-mono : (s t : ℕ) (qs : List Pending) → s ≤ t → From t qs → From s qs
From-mono s t [] h f = tt
From-mono s t (q ∷ qs) h f = (omega (arith, f.0), From-mono s t qs h f.1)

From-emplace :
    (t : ℕ) (p : Pending) (qs : List Pending) → t ≤ p.time → From t qs → From t (emplace p qs)
unfolding emplace
From-emplace t p [] h f = (h, tt)
From-emplace t p (q ∷ qs) h f = ground (arith, From-emplace t p qs h f.1)

pub emplace-IsSorted : (p : Pending) (qs : List Pending) → IsSorted qs → IsSorted (emplace p qs)
unfolding emplace
emplace-IsSorted p [] s = (tt, tt)
emplace-IsSorted p (q ∷ qs) s = elim (Bool-cases (ltb p.time q.time)) [
  | inl e ↦ rw e ((ground arith, From-mono p.time q.time qs (ground arith) s.0), s)
  | inr e ↦ rw e (From-emplace q.time p qs (ground arith) s.0, emplace-IsSorted p qs s.1)
]

From-erase_found : (t time a : ℕ) (qs : List Pending) → From t qs → From t (erase_found time a qs)
unfolding erase_found
From-erase_found t time a [] f = tt
From-erase_found t time a (q ∷ qs) f = ground (arith, From-erase_found t time a qs f.1)

erase_found-IsSorted :
    (time a : ℕ) (qs : List Pending) → IsSorted qs → IsSorted (erase_found time a qs)
unfolding erase_found
erase_found-IsSorted time a [] s = tt
erase_found-IsSorted time a (q ∷ qs) s =
    ground (arith, erase_found-IsSorted time a qs s.1, From-erase_found q.time time a qs s.0)

left_over-IsSorted :
    (events : ℕ → TimerEvent) (now : ℕ) (qs : List Pending)
    → IsSorted qs
    → IsSorted (left_over events now qs)
unfolding left_over
left_over-IsSorted events now [] s = tt
left_over-IsSorted events now (q ∷ qs) s = elim (Bool-cases (is_due events now q)) [
  | inl e ↦ rw e (left_over-IsSorted events now qs s.1)
  | inr e ↦ rw e s
]

-- `addTimerEvent` keeps the order, whether it sets the timer or not.
pub add_timer_event-IsSorted :
    (now : ℕ) (need_reset : Bool) (a : ℕ) (t : Timer)
    → IsSorted t.m_pending_events
    → IsSorted (add_timer_event now need_reset a t).m_pending_events
unfolding add_timer_event reset_arrive_time
add_timer_event-IsSorted now need_reset a t s = ground (
  arith,
  emplace-IsSorted (record { time = (t.events a).m_arrive_time; event = a }) t.m_pending_events s,
)

pub del_timer_event-IsSorted :
    (a : ℕ) (t : Timer)
    → IsSorted t.m_pending_events
    → IsSorted (del_timer_event a t).m_pending_events
unfolding del_timer_event
del_timer_event-IsSorted a t s = erase_found-IsSorted _ a t.m_pending_events s

repeat_event-IsSorted :
    (now : ℕ) (q : Pending) (t : Timer)
    → IsSorted t.m_pending_events
    → IsSorted (repeat_event now q t).m_pending_events
unfolding repeat_event
repeat_event-IsSorted now q t s = elim (Bool-cases (t.events q.event).m_is_repeated) [
  | inl e ↦ rw e (add_timer_event-IsSorted now false q.event _ s)
  | inr e ↦ rw e s
]

repeat_events-IsSorted :
    (clock : ℕ → ℕ) (i : ℕ) (qs : List Pending) (t : Timer)
    → IsSorted t.m_pending_events
    → IsSorted (repeat_events clock i qs t).m_pending_events
unfolding repeat_events
repeat_events-IsSorted clock i [] t s = s
repeat_events-IsSorted clock i (q ∷ qs) t s =
    repeat_events-IsSorted clock (suc i) qs (repeat_event (clock i) q t)
      (repeat_event-IsSorted (clock i) q t s)

pub on_timer-IsSorted :
    (now : ℕ) (clock : ℕ → ℕ) (last : ℕ) (t : Timer)
    → IsSorted t.m_pending_events
    → IsSorted (on_timer now clock last t).0.m_pending_events
unfolding on_timer reset_arrive_time
on_timer-IsSorted now clock last t s =
    repeat_events-IsSorted clock 0 (due t.events now t.m_pending_events) _
      (left_over-IsSorted t.events now t.m_pending_events s)
