-- ===== src/Tun/Lifecycle.antt =====
-- Start and Stop of the TUN manager: what is left open.
use gecit_unofficial.Base.{◌≡◌, refl, Bool, true, false, some, List, arith}
use gecit_unofficial.Capture.Interfaces.{Interface}
use gecit_unofficial.Tun.Manager.{
  Opened, Manager, TunAnswers, TunError, start_seq_tracker, init_networking, start_device,
  manager_start, manager_stop, raw_socket_error, network_monitor_error, interface_monitor_error,
  start_network_monitor_error, start_interface_monitor_error, start_stack_error,
}

-- Nothing that Stop closes is open. The capture is not among it.
abbrev pub IsClosed : Opened → Type 0
IsClosed o =
    (o.context ≡ false)
    × (o.raw_socket ≡ false)
    × (o.tracker ≡ false)
    × (o.network_monitor ≡ false)
    × (o.iface_monitor ≡ false)
    × (o.tun_device ≡ false)
    × (o.stack ≡ false)

-- An error from behind initNetworking
abbrev pub is_late : TunError → Bool
is_late raw_socket_error = false
is_late network_monitor_error = false
is_late interface_monitor_error = false
is_late start_network_monitor_error = false
is_late start_interface_monitor_error = false
is_late err = true

abbrev pub is_of_stack : TunError → Bool
is_of_stack start_stack_error = true
is_of_stack err = false

module _ (ifaces : List Interface) (ans : TunAnswers) (m : Manager) (o : Opened)
    (idle : IsClosed o) where
  -- From a system where nothing is open: a Start that returns an error has closed the raw socket
  -- and the TUN device, but not the context, nor either monitor if the error came after
  -- initNetworking, nor the stack if it is the stack's own.
  pub start_failed_leaves :
      (err : TunError)
      → (manager_start ifaces ans m o).2 ≡ some err
      → ((manager_start ifaces ans m o).1.raw_socket ≡ false)
        × ((manager_start ifaces ans m o).1.tun_device ≡ false)
        × ((manager_start ifaces ans m o).1.context ≡ true)
        × ((manager_start ifaces ans m o).1.network_monitor ≡ is_late err)
        × ((manager_start ifaces ans m o).1.iface_monitor ≡ is_late err)
        × ((manager_start ifaces ans m o).1.stack ≡ is_of_stack err)
  unfolding manager_start start_seq_tracker init_networking start_device
  start_failed_leaves err h = ground (arith, idle, h)

  -- Stop after Start, whether Start failed and wherever, leaves nothing open of what it closes, and
  -- no tracker.
  pub manager_stop-start-IsClosed :
      IsClosed (manager_stop (manager_start ifaces ans m o).0 (manager_start ifaces ans m o).1)
  unfolding manager_stop manager_start start_seq_tracker init_networking start_device
  manager_stop-start-IsClosed = ground (arith, idle)

  -- The capture that Start has opened is open after Stop.
  pub manager_stop-start-capture :
      (manager_stop (manager_start ifaces ans m o).0 (manager_start ifaces ans m o).1).capture
      ≡ (manager_start ifaces ans m o).1.capture
  unfolding manager_stop
  manager_stop-start-capture = refl
