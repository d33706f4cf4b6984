-- ===== src/Examples/Hook.antt =====
-- flconc/coroutine/coroutine_hook.cc on a descriptor that nobody waits for.
use flconc.Base.{◌≡◌, refl, false, true, ◌||◌, ◌&&◌, ◌==◌, not, [], ◌∷◌, none, if◌then◌else◌}
use flconc.Base.Int.{pos, negsuc}
use flconc.Net.FdEvent.{FdEvent, no_events, read, has}
use flconc.Coroutine.Hook.{
  Connected, io_hook, connect_hook, is_zero, einprogress, etimedout, sys_call, sets_non_block,
  is_positive,
}
use flconc.Coroutine.Hook.Restores.{
  attached, waited, io_hook-restores, connect_waited, is_made, connect_hook-restores,
}

abbrev fd_event : FdEvent
fd_event = record {
  m_fd = pos 7;
  m_read_callback = none;
  m_write_callback = none;
  m_listen_events = no_events;
  m_reactor = none;
  m_coroutine = none;
}

io_hook-restores_example : io_hook false 1 4 read (λ x. x) (negsuc 0) (pos 12) fd_event ≡ (
    if is_positive (negsuc 0)
    then record {
      result = negsuc 0;
      fd_event = attached 1 fd_event;
      made = sets_non_block ∷ sys_call ∷ [];
    }
    else record {
      result = pos 12;
      fd_event = attached 1 fd_event;
      made = sets_non_block ∷ waited 1 read fd_event;
    })
unfolding has
io_hook-restores_example = io_hook-restores 1 4 read (negsuc 0) (pos 12) fd_event refl refl

abbrev in_progress : Connected
in_progress = record { n = negsuc 0; errno = 115 }

-- `connect` fails as the socket is connected.
abbrev connected : Connected
connected = record { n = negsuc 0; errno = 106 }

connect_hook-restores_example :
    connect_hook false 1 4 75 (λ x. x) in_progress connected true fd_event ≡ (
      if is_zero in_progress.n || not (in_progress.errno == einprogress)
      then record {
        answer = in_progress;
        fd_event = attached 1 fd_event;
        made = sets_non_block ∷ sys_call ∷ [];
      }
      else record {
        answer = record {
          n = if is_made connected then pos 0 else negsuc 0;
          errno = if not (is_made connected) && true then etimedout else connected.errno;
        };
        fd_event = attached 1 fd_event;
        made = sets_non_block ∷ connect_waited 1 75 fd_event;
      })
unfolding has
connect_hook-restores_example =
    connect_hook-restores 1 4 75 in_progress connected true fd_event refl refl
