-- ===== src/Examples/Net.antt =====
-- flconc/net/base/timer.cc and flconc/net/tcp: a timer of three events, and a wheel of three
-- buckets.
use flconc.Base.{ℕ, ◌+◌, ◌*◌, ◌≡◌, refl, false, true, [], ◌∷◌, none, arith, ◌==◌, Returns, length}
use flconc.Net.Timer.{TimerEvent, Pending, Timer, on_timer, tasks_of}
use flconc.Net.Timer.Order.{IsSorted}
use flconc.Net.Timer.Fire.{arrived, on_timer-arrived}
use flconc.Tcp.TimeWheel.{Wheel, fresh, rounds, loop_func, contains, fresh-rounds}

-- Event `a` arrives at `10 * a`; event 9 is cancelled, and event 2 is no longer pending.
abbrev events : ℕ → TimerEvent
events a = record {
  m_arrive_time = a * 10;
  m_interval = 50;
  m_is_repeated = a == 1;
  m_is_cancled = a == 9;
  m_task = a + 100;
}

abbrev entry : ℕ → Pending
entry a = record { time = a * 10; event = a }

abbrev three : Timer
three = record {
  events = events;
  m_pending_events = entry 1 ∷ entry 3 ∷ entry 5 ∷ [];
  armed = none;
}

three-IsSorted : IsSorted three.m_pending_events
three-IsSorted = ((omega arith, (omega arith, tt)), ((omega arith, tt), (tt, tt)))

abbrev clock : ℕ → ℕ
clock i = 35 + i

on_timer-arrived_example :
    (on_timer 34 clock 36 three).1 ≡ tasks_of events (arrived 34 three.m_pending_events)
on_timer-arrived_example =
    on_timer-arrived 34 clock 36 three three-IsSorted (refl, (refl, (refl, tt)))

abbrev wheel : Wheel
wheel = (4 ∷ []) ∷ [] ∷ []

fresh-rounds_example : Returns (fresh 8 ((6 ∷ []) ∷ wheel)) (λ w'.
    Returns
      (rounds (length wheel) w')
      (λ r. (contains 8 r.1 ≡ false) × Returns (loop_func r.0) (λ last. contains 8 last.1 ≡ true)))
fresh-rounds_example = fresh-rounds 8 (6 ∷ []) wheel
