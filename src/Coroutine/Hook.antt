-- ===== src/Coroutine/Hook.antt =====
-- flconc/coroutine/coroutine_hook.cc: the hooks of the system calls. What the system answers is a
-- parameter, for the call and for the call after the yield; so is what other coroutines do to the
-- descriptor's event meanwhile. The event is the one that `getFdEvent` returns. The calls made are
-- listed in order.
pub mod Restores
use flconc.Base.{
  ℕ, zero, suc, ◌+◌, ◌*◌, Bool, true, false, List, [], ◌∷◌, ◌++◌, Option, none, some, ◌==◌, ◌&&◌,
  ◌||◌, if◌then◌else◌, map, not, ◌>>=◌,
}
use flconc.Base.Int.{ℤ, pos, negsuc}
use flconc.Net.FdEvent.{
  FdEvent, IoEvent, read, write, et_model, ReactorCall, set_coroutine, clear_coroutine, set_reactor,
  add_listen_events, del_listen_events, reactor_or,
}

-- A call that a hook makes: of the system, `setNonBlock`, of the reactor, the timer with its
-- milliseconds, or `Yield`.
pub data HookCall : Type 0 where
  sys_call sets_non_block yields del_timer : HookCall
  reactor_call : ReactorCall → HookCall
  add_timer : ℕ → HookCall

pub record HookRun : Type 0 where
  pub result : ℤ
  pub fd_event : FdEvent
  pub made : List HookCall

abbrev pub is_positive : ℤ → Bool
is_positive (pos (suc n)) = true
is_positive _ = false

-- `if (fd_event->getReactor() == nullptr) fd_event->setReactor(…)`
unfoldable pub with_reactor : ℕ → FdEvent → FdEvent
with_reactor current e = set_reactor (some (reactor_or current e.m_reactor)) e

unfoldable pub to_epoll : ℕ → ℕ → IoEvent → FdEvent → FdEvent × List ReactorCall
to_epoll current cor event e = add_listen_events current event (set_coroutine (some cor) e)

-- From `toEpoll` on.
unfoldable pub wait_and_call : ℕ → ℕ → IoEvent → (FdEvent → FdEvent) → ℤ → FdEvent → HookRun
wait_and_call current cor event meanwhile second e =
    let asked = to_epoll current cor event e in
    let left = del_listen_events current event (meanwhile asked.0) in
    record {
      result = second;
      fd_event = clear_coroutine left.0;
      made =
          sys_call ∷ map reactor_call asked.1
          ++ (yields ∷ map reactor_call left.1)
          ++ sys_call ∷ [];
    }

unfoldable pub in_coroutine : ℕ → ℕ → IoEvent → (FdEvent → FdEvent) → ℤ → ℤ → FdEvent → HookRun
in_coroutine current cor event meanwhile first second e =
    if is_positive first
    then record { result = first; fd_event = e; made = sys_call ∷ [] }
    else wait_and_call current cor event meanwhile second e

abbrev pub non_block : HookRun → HookRun
non_block r = record r { made = sets_non_block ∷ r.made }

-- What the three hooks share; the flag says whether the main coroutine runs.
unfoldable pub io_hook : Bool → ℕ → ℕ → IoEvent → (FdEvent → FdEvent) → ℤ → ℤ → FdEvent → HookRun
io_hook is_main current cor event meanwhile first second e =
    if is_main
    then record { result = first; fd_event = e; made = sys_call ∷ [] }
    else non_block (in_coroutine current cor event meanwhile first second (with_reactor current e))

unfoldable pub read_hook : Bool → ℕ → ℕ → (FdEvent → FdEvent) → ℤ → ℤ → FdEvent → HookRun
read_hook is_main current cor = io_hook is_main current cor read

unfoldable pub accept_hook : Bool → ℕ → ℕ → (FdEvent → FdEvent) → ℤ → ℤ → FdEvent → HookRun
accept_hook is_main current cor = io_hook is_main current cor read

unfoldable pub write_hook : Bool → ℕ → ℕ → (FdEvent → FdEvent) → ℤ → ℤ → FdEvent → HookRun
write_hook is_main current cor = io_hook is_main current cor write

-- `read`, `accept` and `write` as the program calls them: `SetHook` turns the hooks off.
unfoldable pub hooked : Bool → (FdEvent → HookRun) → ℤ → FdEvent → HookRun
hooked g_hook hook first e =
    if g_hook then hook e else record { result = first; fd_event = e; made = sys_call ∷ [] }

abbrev pub einprogress : ℕ
einprogress = 115

abbrev pub eisconn : ℕ
eisconn = 106

abbrev pub etimedout : ℕ
etimedout = 110

-- An answer of `connect`: what it returns, and `errno` behind it.
pub record Connected : Type 0 where
  pub n : ℤ
  pub errno : ℕ

abbrev pub is_zero : ℤ → Bool
is_zero (pos zero) = true
is_zero _ = false

abbrev pub is_negative : ℤ → Bool
is_negative (negsuc _) = true
is_negative _ = false

-- The end of `connect_hook`: the result, and `errno`.
unfoldable pub connect_result : Connected → Bool → Connected
connect_result second is_timeout =
    if is_negative second.n && second.errno == eisconn || is_zero second.n
    then record { n = pos 0; errno = second.errno }
    else record { n = negsuc 0; errno = if is_timeout then etimedout else second.errno }

pub record ConnectRun : Type 0 where
  pub answer : Connected
  pub fd_event : FdEvent
  pub made : List HookCall

-- Behind `EINPROGRESS`: the timer is set before the yield, and deleted after it.
unfoldable pub connect_wait :
    ℕ → ℕ → ℕ → (FdEvent → FdEvent) → Connected → Bool → FdEvent → ConnectRun
connect_wait current cor timeout meanwhile second is_timeout e =
    let asked = to_epoll current cor write e in
    let left = del_listen_events current write (meanwhile asked.0) in
    record {
      answer = connect_result second is_timeout;
      fd_event = clear_coroutine left.0;
      made =
          sets_non_block ∷ sys_call ∷ map reactor_call asked.1
          ++ (add_timer timeout ∷ yields ∷ map reactor_call left.1)
          ++ del_timer ∷ sys_call ∷ [];
    }

unfoldable pub connect_hook :
    Bool → ℕ → ℕ → ℕ → (FdEvent → FdEvent) → Connected → Connected → Bool → FdEvent → ConnectRun
connect_hook is_main current cor timeout meanwhile first second is_timeout e =
    if is_main
    then record { answer = first; fd_event = e; made = sys_call ∷ [] }
    else if is_zero first.n || not (first.errno == einprogress)
    then record {
      answer = first;
      fd_event = with_reactor current e;
      made = sets_non_block ∷ sys_call ∷ [];
    }
    else connect_wait current cor timeout meanwhile second is_timeout (with_reactor current e)

-- `sleep_hook` in a coroutine: each resumption says whether it is the timer's. The number of yields,
-- or `none` while the coroutine still waits.
unfoldable pub sleep_yields : List Bool → Option ℕ
sleep_yields [] = none
sleep_yields (true ∷ later) = some 1
sleep_yields (false ∷ later) = do k ← sleep_yields later; some (suc k)

-- The milliseconds that the timer is set to.
unfoldable pub sleep_timer : ℕ → HookCall
sleep_timer seconds = add_timer (1000 * seconds)
