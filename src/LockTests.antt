-- ===== src/LockTests.antt =====
-- Runs of the models of src/SerialPort/SerialPortLock.cpp and src/HdlcdServer/LockGuard.cpp.
use hdlcd.Base.{◌≡◌, [], ◌∷◌, ◌++◌, arith, ltb}
use hdlcd.Lock.{
  get_serial_port_state, LockGuard, no_lock, acquire_lock, update_lock_state, is_locked,
}
use hdlcd.Lock.Holders.{
  holders, Port, port, client_joins, client_acquires, IsReachablePort, no_clients, next,
  locks_are_counted, update_tells_locks,
}

abbrev locked_guard : LockGuard
locked_guard = (acquire_lock no_lock 0).0

-- Two clients, of which the first holds a lock.
abbrev two_clients : Port
two_clients = port ([] ++ locked_guard ∷ no_lock ∷ []) (acquire_lock no_lock 0).1

two_clients-IsReachablePort : IsReachablePort two_clients
two_clients-IsReachablePort =
    next
      (next (next no_clients (client_joins [] 0 (omega arith)))
        (client_joins (no_lock ∷ []) 0 (omega arith)))
      (client_acquires [] (no_lock ∷ []) no_lock 0)

locks_are_counted_example : two_clients.nbr_of_locks ≡ holders two_clients.guards
locks_are_counted_example = locks_are_counted two_clients two_clients-IsReachablePort

update_tells_locks_example :
    ((update_lock_state (acquire_lock no_lock 0).1 no_lock).0.locked_by_others
      ≡ ltb 0 (holders ((locked_guard ∷ []) ++ [])))
    × (is_locked (update_lock_state (acquire_lock no_lock 0).1 no_lock).0
        ≡ get_serial_port_state (acquire_lock no_lock 0).1)
update_tells_locks_example =
    update_tells_locks (locked_guard ∷ []) [] no_lock (acquire_lock no_lock 0).1
      two_clients-IsReachablePort
