-- ===== src/Client.antt =====
-- src/HdlcdServer/HdlcdServerHandler.{h,cpp}: one client of the daemon. The packets and the two
-- endpoints of its TCP connection belong to the hdlcd-devel submodule: a packet is plain data here, an
-- endpoint the fact that the pointer to it is set. What the client calls is logged.
pub mod Operations
pub mod Sound
pub mod Session
pub mod Keeps
pub mod Status
pub mod Flow
pub mod Reachable
pub mod Guarantees
use hdlcd.Base.{
  ℕ, Bool, true, false, not, ◌||◌, ◌==◌, List, [], ◌∷◌, Option, none, some, if◌then◌else◌,
}
use hdlcd.Hdlc.ProtocolState.{
  BufferType, buffer_type_raw, buffer_type_dissected, buffer_type_payload, buffer_type_port_status,
}
use hdlcd.Lock.{LockGuard, no_lock}

-- The values of E_BUFFER_TYPE; BUFFER_TYPE_UNSET is `none`.
abbrev pub buffer_type_value : BufferType → ℕ
buffer_type_value buffer_type_raw = 0
buffer_type_value buffer_type_dissected = 1
buffer_type_value buffer_type_payload = 2
buffer_type_value buffer_type_port_status = 3

abbrev pub same_type : BufferType → Option BufferType → Bool
same_type type none = false
same_type type (some own) = buffer_type_value type == buffer_type_value own

-- HdlcdPacketData, HdlcdPacketCtrl and HdlcdSessionHeader, as far as the client reads them.
pub record Packet : Type 0 where
  pub payload : List ℕ
  pub reliable : Bool

pub data Ctrl : Type 0 where
  ctrl_type_port_status : (desired_lock_state : Bool) → Ctrl
  ctrl_type_echo ctrl_type_port_kill ctrl_type_other : Ctrl

pub record SessionHeader : Type 0 where
  pub service_access_point_specifier : ℕ
  pub serial_port_name : List ℕ

-- The calls that the client makes, on its endpoints, its collection and its serial port.
pub data Call : Type 0 where
  start_frame_endpoint shutdown_frame_endpoint close_frame_endpoint : Call
  start_packet_endpoint close_packet_endpoint trigger_next_data_packet : Call
  send_data : (payload : List ℕ) (reliable invalid was_sent : Bool) → Call
  send_port_status : (alive locked_by_others locked_by_self : Bool) → Call
  send_echo : Call
  register_handler deregister_handler : Call
  get_port : (name : List ℕ) → Call
  deliver_payload : (packet : Packet) → Call
  propagate_port_state suspend_port resume_port stop_port : Call

-- Pointers are kept as the fact that they are set: `collection` tells whether the weak pointer to the
-- collection of handlers can be locked, `guard_attached` whether Init has given the guard its port.
-- `calls` has the newest call first. `failed` is set for ever by a failed assertion and by a call
-- through an empty pointer.
pub record Client : Type 0 where
  pub collection : Bool
  pub frame_endpoint : Bool
  pub packet_endpoint : Bool
  pub registered : Bool
  pub serial_port_handler : Bool
  pub awaits_packet : Bool
  pub pending : Option Packet
  pub deliver_initial_state : Bool
  pub alive_guard : Bool
  pub lock_guard : LockGuard
  pub guard_attached : Bool
  pub buffer_type : Option BufferType
  pub deliver_sent : Bool
  pub deliver_rcvd : Bool
  pub deliver_invalid_data : Bool
  pub calls : List Call
  pub failed : Bool

-- The constructor.
unfoldable pub new_client : Client
new_client = record {
  collection = true;
  frame_endpoint = true;
  packet_endpoint = false;
  registered = false;
  serial_port_handler = false;
  awaits_packet = false;
  pending = none;
  deliver_initial_state = true;
  alive_guard = true;
  lock_guard = no_lock;
  guard_attached = false;
  buffer_type = none;
  deliver_sent = false;
  deliver_rcvd = false;
  deliver_invalid_data = false;
  calls = [];
  failed = false;
}

-- What must hold for the program to go on.
abbrev pub demand : Bool → Client → Client
demand ok c = record c { failed = c.failed || not ok }

abbrev pub call : Call → Client → Client
call a c = record c { calls = a ∷ c.calls }

-- A call through the pointer to the packet endpoint, and one through that to the serial port.
abbrev pub call_packet_endpoint : Call → Client → Client
call_packet_endpoint a c = call a (demand c.packet_endpoint c)

abbrev pub call_port : Call → Client → Client
call_port a c = call a (demand c.serial_port_handler c)
