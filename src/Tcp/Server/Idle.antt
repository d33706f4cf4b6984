-- ===== src/Tcp/Server/Idle.antt =====
-- flconc/net/tcp: how a server keeps the connections that are read from and shuts down the idle ones. It puts
-- together `freshTcpConnection` of tcp_server.cc, which hands a task to the main reactor, the time
-- wheel of tcp_connection_time_wheel.cc, and the end of `input` and `registerToTimeWheel` of
-- tcp_connection.cc. A slot is a number; a task that waits in the reactor holds a pointer to its slot.
pub mod Freshened
pub mod Active
use flconc.Base.{
  ℕ, Bool, true, false, ◌||◌, List, [], ◌∷◌, ◌++◌, Option, none, some, if◌then◌else◌, ◌>>=◌,
}
use flconc.Tcp.TimeWheel.{Wheel, empty_bucket, contains, held, released, fresh}
use flconc.Tcp.Connection.{TcpConnection, shutdown_connection}

-- `pending` are the slots of the tasks on the main reactor; `connections` those of the slots, which live.
pub record Idle : Type 0 where
  pub m_wheel : Wheel
  pub pending : List ℕ
  pub connections : ℕ → TcpConnection

unfoldable pub fresh_tcp_connection : ℕ → Idle → Idle
fresh_tcp_connection slot i = record i { pending = i.pending ++ slot ∷ [] }

-- `m_weak_slot.lock()`: whether some pointer holds the slot.
unfoldable pub is_held : ℕ → Idle → Bool
is_held slot i = held slot (i.pending ∷ i.m_wheel)

-- The end of `input` on a server.
unfoldable pub refresh : ℕ → Idle → Idle
refresh slot i = if is_held slot i then fresh_tcp_connection slot i else i

unfoldable pub fresh_all : List ℕ → Wheel → Option Wheel
fresh_all [] w = some w
fresh_all (slot ∷ slots) w = do w' ← fresh slot w; fresh_all slots w'

-- The main reactor runs the tasks.
unfoldable pub run_tasks : Idle → Option Idle
run_tasks i = do w ← fresh_all i.pending i.m_wheel; some (record i { m_wheel = w; pending = [] })

-- The destructors of these slots.
unfoldable pub shut_slots : List ℕ → (ℕ → TcpConnection) → ℕ → TcpConnection
shut_slots slots connections slot =
    if contains slot slots then (shutdown_connection (connections slot)).0 else connections slot

-- `loopFunc`: the slots of the oldest bucket that no bucket and no task holds go.
unfoldable pub take_bucket : Idle → Wheel → Option Idle
take_bucket i [] = none
take_bucket i (b ∷ rest) =
    let w : Wheel = rest ++ empty_bucket ∷ [] in
    some (record i {
      m_wheel = w;
      connections = shut_slots (released b (i.pending ∷ w)) i.connections;
    })

unfoldable pub loop_func : Idle → Option Idle
loop_func i = take_bucket i i.m_wheel

pub data Event : Type 0 where
  reads : ℕ → Event
  runs : Event
  ticks : Event

unfoldable pub handle : Event → Idle → Option Idle
handle (reads slot) i = some (refresh slot i)
handle runs i = run_tasks i
handle ticks i = loop_func i

unfoldable pub handle_events : List Event → Idle → Option Idle
handle_events [] i = some i
handle_events (e ∷ es) i = do i' ← handle e i; handle_events es i'
