-- ===== src/Net/Timer.antt =====
-- flconc/net/base/timer.h and timer.cc: `TimerEvent` and `Timer`. Events are shared pointers: a map
-- from their addresses holds them. The multimap of pending events is a list in the order of its
-- keys, the times of arrival when the events were added. Times are milliseconds; the clock is read
-- through `getNowMs`, and the `i`-th reading of a call is an argument.
pub mod Order
pub mod Fire
use flconc.Base.{
  ℕ, suc, ◌+◌, ◌-◌, Bool, true, false, List, [], ◌∷◌, Option, none, some, ltb, leb, ◌==◌, ◌&&◌, not,
  if◌then◌else◌,
}

pub record TimerEvent : Type 0 where
  pub m_arrive_time : ℕ
  pub m_interval : ℕ
  pub m_is_repeated : Bool
  pub m_is_cancled : Bool
  pub m_task : ℕ

-- The constructor, at clock `now`.
unfoldable pub new_event : ℕ → ℕ → Bool → ℕ → TimerEvent
new_event now interval is_repeated task = record {
  m_arrive_time = now + interval;
  m_interval = interval;
  m_is_repeated = is_repeated;
  m_is_cancled = false;
  m_task = task;
}

unfoldable pub reset_time : ℕ → TimerEvent → TimerEvent
reset_time now e = record e { m_arrive_time = now + e.m_interval; m_is_cancled = false }

unfoldable pub wake : TimerEvent → TimerEvent
wake e = record e { m_is_cancled = false }

unfoldable pub cancle : TimerEvent → TimerEvent
cancle e = record e { m_is_cancled = true }

unfoldable pub cancle_repeated : TimerEvent → TimerEvent
cancle_repeated e = record e { m_is_repeated = false }

-- A key and an event's address.
pub record Pending : Type 0 where
  pub time : ℕ
  pub event : ℕ

-- `armed` is the interval last given to `timerfd_settime`; an interval of 0 disarms the timer.
pub record Timer : Type 0 where
  pub events : ℕ → TimerEvent
  pub m_pending_events : List Pending
  pub armed : Option ℕ

abbrev pub update : (ℕ → TimerEvent) → ℕ → TimerEvent → ℕ → TimerEvent
update events a e b = if a == b then e else events b

-- `multimap::emplace`: behind the entries of the same key.
unfoldable pub emplace : Pending → List Pending → List Pending
emplace p [] = p ∷ []
emplace p (q ∷ qs) = if ltb p.time q.time then p ∷ q ∷ qs else q ∷ emplace p qs

-- Is the time earlier than the first pending event's own, which need not be its key?
unfoldable pub is_first : (ℕ → TimerEvent) → ℕ → List Pending → Bool
is_first events time [] = true
is_first events time (q ∷ qs) = ltb time (events q.event).m_arrive_time

abbrev pub settime : ℕ → Option ℕ
settime interval = if interval == 0 then none else some interval

-- The key of the last entry, `rbegin()`.
unfoldable pub last_time : List Pending → Option ℕ
last_time [] = none
last_time (q ∷ []) = some q.time
last_time (q ∷ r ∷ qs) = last_time (r ∷ qs)

unfoldable pub rearm : ℕ → Option ℕ → Option ℕ → Option ℕ
rearm now none armed = armed
rearm now (some last) armed = if ltb last now then armed else settime (last - now)

unfoldable pub reset_arrive_time : ℕ → Timer → Timer
unfolding rearm last_time
reset_arrive_time now t = record t { armed = rearm now (last_time t.m_pending_events) t.armed }

unfoldable pub add_timer_event : ℕ → Bool → ℕ → Timer → Timer
add_timer_event now need_reset a t =
    let time = (t.events a).m_arrive_time in
    let added : Timer = record t {
      m_pending_events = emplace (record { time = time; event = a }) t.m_pending_events;
    } in
    if is_first t.events time t.m_pending_events && need_reset
    then reset_arrive_time now added
    else added

-- The search from `lower_bound` to `upper_bound`, and the erasure of the entry at which it stops.
unfoldable pub erase_found : ℕ → ℕ → List Pending → List Pending
erase_found time a [] = []
erase_found time a (q ∷ qs) =
    if ltb q.time time
    then q ∷ erase_found time a qs
    else if ltb time q.time
    then qs
    else if q.event == a
    then qs
    else q ∷ erase_found time a qs

unfoldable pub del_timer_event : ℕ → Timer → Timer
unfolding cancle erase_found
del_timer_event a t = record t {
  events = update t.events a (cancle (t.events a));
  m_pending_events = erase_found (t.events a).m_arrive_time a t.m_pending_events;
}

abbrev pub is_due : (ℕ → TimerEvent) → ℕ → Pending → Bool
is_due events now q = leb q.time now && not (events q.event).m_is_cancled

-- The entries that the first loop of `onTimer` collects, and those that stay.
unfoldable pub due : (ℕ → TimerEvent) → ℕ → List Pending → List Pending
due events now [] = []
due events now (q ∷ qs) =
    let rest = due events now qs in if is_due events now q then q ∷ rest else []

unfoldable pub left_over : (ℕ → TimerEvent) → ℕ → List Pending → List Pending
left_over events now [] = []
left_over events now (q ∷ qs) =
    let rest = left_over events now qs in if is_due events now q then rest else q ∷ qs

-- The second loop: a repeated event gets a new time, from a reading of its own, and is added.
unfoldable pub repeat_event : ℕ → Pending → Timer → Timer
repeat_event now q t =
    if (t.events q.event).m_is_repeated
    then add_timer_event now false q.event
        (record t { events = update t.events q.event (reset_time now (t.events q.event)) })
    else t

unfoldable pub repeat_events : (ℕ → ℕ) → ℕ → List Pending → Timer → Timer
repeat_events clock i [] t = t
repeat_events clock i (q ∷ qs) t = repeat_events clock (suc i) qs (repeat_event (clock i) q t)

unfoldable pub tasks_of : (ℕ → TimerEvent) → List Pending → List ℕ
tasks_of events [] = []
tasks_of events (q ∷ qs) = (events q.event).m_task ∷ tasks_of events qs

-- The timer before the tasks run, and the tasks in the order in which they run.
unfoldable pub on_timer : ℕ → (ℕ → ℕ) → ℕ → Timer → Timer × List ℕ
on_timer now clock last t = (
  reset_arrive_time last (
      repeat_events clock 0 (due t.events now t.m_pending_events)
        (record t { m_pending_events = left_over t.events now t.m_pending_events })),
  tasks_of t.events (due t.events now t.m_pending_events),
)
