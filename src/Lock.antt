-- ===== src/Lock.antt =====
-- src/SerialPort/SerialPortLock.{h,cpp}, src/HdlcdServer/LockGuard.{h,cpp} and AliveGuard.h: the locks
-- that clients hold on a serial port, and what a client was last told of the port. The counter of
-- holders is a size_t of 64 bits. SuspendSerialPort and ResumeSerialPort of SerialPortHandler, which a
-- guard calls, reach the counter while the handler is registered; that is assumed here.
pub mod Holders
use hdlcd.Base.{ℕ, ◌+◌, ◌-◌, ◌%◌, ◌^◌, Bool, true, false, not, ◌&&◌, ◌||◌, ◌==◌, ltb, if◌then◌else◌}

-- SerialPortLock: `m_NbrOfLocks`, and whether the call has changed the state of the port.
unfoldable pub suspend_serial_port : ℕ → ℕ × Bool
suspend_serial_port nbr_of_locks = let next = (nbr_of_locks + 1) % 2 ^ 64 in (next, next == 1)

unfoldable pub resume_serial_port : ℕ → ℕ × Bool
resume_serial_port nbr_of_locks =
    let next = (nbr_of_locks + (2 ^ 64 - 1)) % 2 ^ 64 in (next, next == 0)

abbrev pub get_serial_port_state : ℕ → Bool
get_serial_port_state nbr_of_locks = not (nbr_of_locks == 0)

pub record LockGuard : Type 0 where
  pub locked_by_self : Bool
  pub locked_by_others : Bool
  pub last_locked_by_self : Bool
  pub last_locked_by_others : Bool

abbrev pub no_lock : LockGuard
no_lock = record {
  locked_by_self = false;
  locked_by_others = false;
  last_locked_by_self = false;
  last_locked_by_others = false;
}

-- AcquireLock and ReleaseLock, with the counter of the port.
unfoldable pub acquire_lock : LockGuard → ℕ → LockGuard × ℕ
unfolding suspend_serial_port
acquire_lock g n =
    if not g.locked_by_self
    then (record g { locked_by_self = true }, (suspend_serial_port n).0)
    else (g, n)

unfoldable pub release_lock : LockGuard → ℕ → LockGuard × ℕ
unfolding resume_serial_port
release_lock g n =
    if g.locked_by_self
    then (record g { locked_by_self = false }, (resume_serial_port n).0)
    else (g, n)

-- The destructor.
unfoldable pub destroy_guard : LockGuard → ℕ → ℕ
unfolding resume_serial_port
destroy_guard g n = if g.locked_by_self then (resume_serial_port n).0 else n

abbrev pub same_bool : Bool → Bool → Bool
same_bool true b = b
same_bool false b = not b

-- UpdateSerialPortState: whether the client has to be told.
unfoldable pub update_lock_state : ℕ → LockGuard → LockGuard × Bool
update_lock_state lock_holders g =
    let others = if g.locked_by_self then ltb 1 lock_holders else ltb 0 lock_holders in
    if not (same_bool g.last_locked_by_self g.locked_by_self)
      || not (same_bool g.last_locked_by_others others)
    then (
      record g {
        locked_by_others = others;
        last_locked_by_self = g.locked_by_self;
        last_locked_by_others = others;
      },
      true,
    )
    else (record g { locked_by_others = others }, false)

abbrev pub is_locked : LockGuard → Bool
is_locked g = g.locked_by_self || g.locked_by_others

-- AliveGuard::UpdateSerialPortState: the new state, and whether it changed.
unfoldable pub update_alive_state : Bool → Bool → Bool × Bool
update_alive_state alive a_alive = (a_alive, not (same_bool alive a_alive))
