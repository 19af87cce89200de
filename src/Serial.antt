-- ===== src/Serial.antt =====
-- src/SerialPort/SerialPortHandler.{h,cpp} and BaudRate.h: one serial port with its clients, its lock
-- and its HDLC protocol. The port of boost::asio is part of the state: whether it is open and which
-- reads and writes are pending; cancel, set_option and the reads and writes are used as it documents
-- them. What the handler calls on its port, its clients and its collection is logged.
pub mod Operations
pub mod Core
pub mod Fit
pub mod Stopping
pub mod Locking
pub mod Working
pub mod Reachable
pub mod Counting
pub mod Subscribers
pub mod Writing
pub mod Dial
pub mod Tuning
pub mod Searching
pub mod Leftover
pub mod Ending
use hdlcd.Base.{
  ℕ, ◌+◌, ◌%◌, ◌^◌, Bool, true, false, not, ◌||◌, ◌==◌, List, [], ◌∷◌, Option, none, if◌then◌else◌,
}
use hdlcd.Hdlc.ProtocolState.{BufferType, Protocol}
use hdlcd.Client.{buffer_type_value}

-- BaudRate: the settings by `m_CurrentBaudrateIndex`, of which any but 0 is the second.
unfoldable pub get_baud_rate : ℕ → ℕ
get_baud_rate current_baudrate_index = if current_baudrate_index == 0 then 9600 else 115200

unfoldable pub toggle_baud_rate : ℕ → ℕ
toggle_baud_rate current_baudrate_index = if current_baudrate_index == 0 then 1 else 0

-- An entry of the list of weak pointers: which client, its GetBufferType, and whether it is gone.
pub record Entry : Type 0 where
  pub client : ℕ
  pub type : BufferType
  pub expired : Bool

pub data PortCall : Type 0 where
  open_port cancel_port close_port read_some : PortCall
  set_baud_rate : (rate : ℕ) → PortCall
  write_some : (bytes : List ℕ) → PortCall
  deregister_port : PortCall
  update_client : (client : ℕ) (alive : Bool) (lock_holders : ℕ) → PortCall
  deliver_to_client :
      (client : ℕ) (type : BufferType) (payload : List ℕ) (reliable invalid was_sent : Bool)
      → PortCall
  query_client : (client : ℕ) (reliable unreliable : Bool) → PortCall
  stop_client : (client : ℕ) → PortCall

-- `port_open`, `reading` and `writing` are the state of `m_SerialPort`: the number of pending reads,
-- and whether a write is pending. `cyclic_call_guard` is the static variable of
-- ForEachHdlcdServerHandler as the call finds it, `collection` whether the weak pointer to the
-- collection can be locked. `calls` has the newest call first. `failed` is set for ever by a failed
-- assertion, by a call through an empty pointer and by an exception of the port that nothing catches.
pub record Handler : Type 0 where
  pub registered : Bool
  pub port_open : Bool
  pub reading : ℕ
  pub writing : Bool
  pub protocol : Option Protocol
  pub collection : Bool
  pub clients : List Entry
  pub send_buffer : List ℕ
  pub send_buffer_offset : ℕ
  pub nbr_of_locks : ℕ
  pub current_baudrate_index : ℕ
  pub subscribers : BufferType → ℕ
  pub cyclic_call_guard : Bool
  pub calls : List PortCall
  pub failed : Bool

-- The constructor.
unfoldable pub new_handler : Handler
new_handler = record {
  registered = true;
  port_open = false;
  reading = 0;
  writing = false;
  protocol = none;
  collection = true;
  clients = [];
  send_buffer = [];
  send_buffer_offset = 0;
  nbr_of_locks = 0;
  current_baudrate_index = 0;
  subscribers = λ type. 0;
  cyclic_call_guard = false;
  calls = [];
  failed = false;
}

abbrev pub demand : Bool → Handler → Handler
demand ok h = record h { failed = h.failed || not ok }

abbrev pub call : PortCall → Handler → Handler
call a h = record h { calls = a ∷ h.calls }

-- One more subscriber of a type, a size_t.
unfoldable pub subscribe : BufferType → (BufferType → ℕ) → BufferType → ℕ
subscribe type subscribers other =
    if buffer_type_value other == buffer_type_value type
    then (subscribers other + 1) % 2 ^ 64
    else subscribers other

-- The clients in order, each counted.
unfoldable pub subscribe_all : List Entry → (BufferType → ℕ) → BufferType → ℕ
unfolding subscribe
subscribe_all [] subscribers = subscribers
subscribe_all (e ∷ es) subscribers = subscribe_all es (subscribe e.type subscribers)

abbrev pub live : List Entry → List Entry
live [] = []
live (e ∷ es) = let rest = live es in if e.expired then rest else e ∷ rest

abbrev pub some_expired : List Entry → Bool
some_expired [] = false
some_expired (e ∷ es) = e.expired || some_expired es
