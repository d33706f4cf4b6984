-- ===== src/Coroutine/Hook/Restores.antt =====
-- flconc/coroutine/coroutine_hook.cc: a hook gives back the event as it found it.
use flconc.Base.{
  ℕ, zero, suc, ◌≡◌, refl, sym, ap, Bool, true, false, List, [], ◌∷◌, ◌++◌, none, some, ◌==◌, ◌&&◌,
  ◌||◌, not, if◌then◌else◌, Bool-cases, inl, inr, replicate,
}
use flconc.Base.Int.{ℤ, pos, negsuc}
use flconc.Net.FdEvent.{
  FdEvent, Events, IoEvent, read, write, et_model, add_event, has, put_event, set_coroutine,
  clear_coroutine, set_reactor, add_listen_events, del_listen_events, update_to_reactor, reactor_or,
}
use flconc.Coroutine.Hook.{
  HookCall, sys_call, sets_non_block, yields, reactor_call, add_timer, del_timer, is_positive,
  with_reactor, to_epoll, wait_and_call, in_coroutine, io_hook, Connected, is_zero, is_negative,
  connect_result, connect_wait, connect_hook, einprogress, eisconn, etimedout, sleep_yields,
}

put-put :
    (event : IoEvent) (es : Events)
    → has es event ≡ false
    → (has (put_event true es event) event ≡ true)
      × (put_event false (put_event true es event) event ≡ es)
unfolding has put_event
put-put read es h = (refl, ap (λ b. record es { reads = b }) (sym h))
put-put write es h = (refl, ap (λ b. record es { writes = b }) (sym h))
put-put et_model es h = (refl, ap (λ b. record es { edges = b }) (sym h))

-- The event as the hooks leave it: its reactor is set.
abbrev pub attached : ℕ → FdEvent → FdEvent
attached current e = record e { m_reactor = some (reactor_or current e.m_reactor) }

-- The calls of a hook that has to wait: the system is asked, the event is added to the reactor, the
-- coroutine yields, the event is taken back, and the system is asked again.
abbrev pub waited : ℕ → IoEvent → FdEvent → List HookCall
waited current event e =
    sys_call
    ∷ reactor_call
        (add_event (reactor_or current e.m_reactor) e.m_fd (put_event true e.m_listen_events event))
    ∷ yields
    ∷ reactor_call (add_event (reactor_or current e.m_reactor) e.m_fd e.m_listen_events)
    ∷ sys_call
    ∷ []

wait_and_call-waited :
    (current cor : ℕ) (event : IoEvent) (second : ℤ) (e : FdEvent)
    → has e.m_listen_events event ≡ false
    → e.m_coroutine ≡ none
    → wait_and_call current cor event (λ x. x) second (attached current e)
      ≡ record { result = second; fd_event = attached current e; made = waited current event e }
unfolding wait_and_call to_epoll add_listen_events del_listen_events update_to_reactor set_coroutine
    clear_coroutine reactor_or
wait_and_call-waited current cor event second e h n =
    let (on, off) = put-put event e.m_listen_events h in simp (h, on, off, n)

-- In a coroutine, on an event that does not listen for what the hook waits for and has no coroutine, and
-- that other coroutines leave alone: the hook returns what the system answers at once when that is
-- positive; otherwise it registers the event, yields once, takes the event back and returns the
-- second answer, whatever it is. Either way the event is as before, with its reactor set.
pub io_hook-restores :
    (current cor : ℕ) (event : IoEvent) (first second : ℤ) (e : FdEvent)
    → has e.m_listen_events event ≡ false
    → e.m_coroutine ≡ none
    → io_hook false current cor event (λ x. x) first second e ≡ (
        if is_positive first
        then record {
          result = first;
          fd_event = attached current e;
          made = sets_non_block ∷ sys_call ∷ [];
        }
        else record {
          result = second;
          fd_event = attached current e;
          made = sets_non_block ∷ waited current event e;
        })
unfolding io_hook in_coroutine with_reactor set_reactor
io_hook-restores current cor event first second e h n = elim (Bool-cases (is_positive first)) [
  | inl p ↦ simp p
  | inr p ↦ simp (p, wait_and_call-waited current cor event second e h n)
]

-- The calls of `connect_hook` where it has to wait: the timer is set before the yield, and deleted behind it.
abbrev pub connect_waited : ℕ → ℕ → FdEvent → List HookCall
connect_waited current timeout e =
    sys_call
    ∷ reactor_call
        (add_event (reactor_or current e.m_reactor) e.m_fd (put_event true e.m_listen_events write))
    ∷ add_timer timeout
    ∷ yields
    ∷ reactor_call (add_event (reactor_or current e.m_reactor) e.m_fd e.m_listen_events)
    ∷ del_timer
    ∷ sys_call
    ∷ []

-- `connect` has connected, at last.
abbrev pub is_made : Connected → Bool
is_made second = is_zero second.n || is_negative second.n && second.errno == eisconn

abbrev answer_after : Connected → Bool → Connected
answer_after second is_timeout = record {
  n = if is_made second then pos 0 else negsuc 0;
  errno = if not (is_made second) && is_timeout then etimedout else second.errno;
}

connect_result-after :
    (second : Connected) (is_timeout : Bool)
    → connect_result second is_timeout ≡ answer_after second is_timeout
unfolding connect_result
connect_result-after second is_timeout = elim (Bool-cases (is_zero second.n)) [
  | inl z ↦ elim (Bool-cases (is_negative second.n && second.errno == eisconn)) [
    | inl c ↦ simp (z, c)
    | inr c ↦ simp (z, c)
  ]
  | inr z ↦ elim (Bool-cases (is_negative second.n && second.errno == eisconn)) [
    | inl c ↦ simp (z, c)
    | inr c ↦ simp (z, c)
  ]
]

connect_wait-waited :
    (current cor timeout : ℕ) (second : Connected) (is_timeout : Bool) (e : FdEvent)
    → has e.m_listen_events write ≡ false
    → e.m_coroutine ≡ none
    → connect_wait current cor timeout (λ x. x) second is_timeout (attached current e) ≡ record {
      answer = answer_after second is_timeout;
      fd_event = attached current e;
      made = sets_non_block ∷ connect_waited current timeout e;
    }
unfolding connect_wait to_epoll add_listen_events del_listen_events update_to_reactor set_coroutine
    clear_coroutine reactor_or
connect_wait-waited current cor timeout second is_timeout e h n =
    let (on, off) = put-put write e.m_listen_events h in
    simp (h, on, off, n, connect_result-after second is_timeout)

-- In a coroutine, on an event that does not listen for a write and has no coroutine, and that other
-- coroutines leave alone: where `connect` connects at once, or fails with another error than
-- EINPROGRESS, the hook returns that and makes no further call. Otherwise it sets the timer, yields
-- once for a write, and deletes the timer; it returns 0 where the second `connect` returns 0 or fails
-- with EISCONN, whether the timer has gone off or not, and else -1, with ETIMEDOUT where it has. Either
-- way the event is as before, with its reactor set.
pub connect_hook-restores :
    (current cor timeout : ℕ) (first second : Connected) (is_timeout : Bool) (e : FdEvent)
    → has e.m_listen_events write ≡ false
    → e.m_coroutine ≡ none
    → connect_hook false current cor timeout (λ x. x) first second is_timeout e ≡ (
        if is_zero first.n || not (first.errno == einprogress)
        then record {
          answer = first;
          fd_event = attached current e;
          made = sets_non_block ∷ sys_call ∷ [];
        }
        else record {
          answer = record {
            n = if is_made second then pos 0 else negsuc 0;
            errno = if not (is_made second) && is_timeout then etimedout else second.errno;
          };
          fd_event = attached current e;
          made = sets_non_block ∷ connect_waited current timeout e;
        })
unfolding connect_hook with_reactor set_reactor
connect_hook-restores current cor timeout first second is_timeout e h n =
    elim (Bool-cases (is_zero first.n || not (first.errno == einprogress))) [
      | inl p ↦ simp p
      | inr p ↦ simp (p, connect_wait-waited current cor timeout second is_timeout e h n)
    ]

-- `sleep_hook` returns on the first resumption by its timer, after a yield for it and for each resumption
-- before; resumptions by others never end the sleep.
pub sleep_yields-timer :
    (k : ℕ) (later : List Bool)
    → (sleep_yields (replicate k false ++ true ∷ later) ≡ some (suc k))
      × (sleep_yields (replicate k false) ≡ none)
unfolding sleep_yields
sleep_yields-timer zero later = (refl, refl)
sleep_yields-timer (suc k) later =
    let (ends, waits) = sleep_yields-timer k later in (simp ends, simp waits)
