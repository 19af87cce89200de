-- ===== src/Client/Status.antt =====
-- HdlcdServerHandler.cpp, UpdateSerialPortState: what the client was last told of its port.
use hdlcd.Base.{
  ℕ, ◌≡◌, Bool, false, ◌&&◌, ltb, List, [], ◌∷◌, Option, none, some, arith, if◌then◌else◌,
}
use hdlcd.Hdlc.ProtocolState.{BufferType}
use hdlcd.Lock.{acquire_lock, release_lock, same_bool, update_lock_state, update_alive_state}
use hdlcd.Client.{Call, send_port_status, Client, Packet, Ctrl}
use hdlcd.Client.Keeps.{IsKept}
use hdlcd.Client.Operations.{
  deliver_buffer_to_client, update_serial_port_state, query_for_payload, query_pending, stop,
  close_endpoint, on_data_received, on_ctrl_received, set_lock,
}

-- The last port status in the log: alive, locked by others, locked by the client itself.
abbrev pub told : List Call → Option (Bool × Bool × Bool)
told [] = none
told (send_port_status alive others self ∷ calls) = some (alive, others, self)
told (_ ∷ calls) = told calls

-- The members hold what the client was told.
abbrev pub IsTold : Client → Type 0
IsTold c = told c.calls ≡ (
    if c.deliver_initial_state
    then none
    else some (c.alive_guard, c.lock_guard.last_locked_by_others, c.lock_guard.last_locked_by_self))

-- The state of the port for this client.
abbrev pub state_for : Client → Bool → ℕ → Bool × Bool × Bool
state_for c alive lock_holders = (
  alive,
  (if c.lock_guard.locked_by_self then ltb 1 lock_holders else ltb 0 lock_holders),
  c.lock_guard.locked_by_self,
)

abbrev pub same_state : Bool × Bool × Bool → Option (Bool × Bool × Bool) → Bool
same_state s none = false
same_state s (some t) = same_bool s.0 t.0 && (same_bool s.1 t.1 && same_bool s.2 t.2)

pub update-IsTold :
    (alive : Bool) (n : ℕ) (c : Client) → IsTold c → IsTold (update_serial_port_state alive n c)
unfolding update_serial_port_state update_lock_state update_alive_state
update-IsTold alive n c t = ground arith

-- An update is sent exactly if it differs from the last one.
pub update-calls :
    (alive : Bool) (n : ℕ) (c : Client)
    → IsTold c
    → (update_serial_port_state alive n c).calls ≡ (
        let now = state_for c alive n in
        if same_state now (told c.calls)
        then c.calls
        else send_port_status now.0 now.1 now.2 ∷ c.calls)
unfolding update_serial_port_state update_lock_state update_alive_state
update-calls alive n c t = rw t (ground arith)

pub deliver_buffer_to_client-IsTold :
    (type : BufferType) (payload : List ℕ) (reliable invalid was_sent : Bool) (c : Client)
    → IsTold c
    → IsTold (deliver_buffer_to_client type payload reliable invalid was_sent c)
unfolding deliver_buffer_to_client
deliver_buffer_to_client-IsTold type payload reliable invalid was_sent c t = ground arith

pub query_for_payload-IsTold :
    (query_reliable query_unreliable : Bool) (c : Client)
    → IsTold c
    → IsTold (query_for_payload query_reliable query_unreliable c)
unfolding query_for_payload query_pending
query_for_payload-IsTold query_reliable query_unreliable c t = ground arith

pub stop-IsTold : (c : Client) → IsTold c → IsTold (stop c)
unfolding stop close_endpoint
stop-IsTold c t = ground arith

pub on_data_received-IsTold :
    (packet : Packet) (c : Client) → IsTold c → IsTold (on_data_received packet c).0
unfolding on_data_received
on_data_received-IsTold packet c t = ground arith

pub on_ctrl_received-IsTold :
    (ctrl : Ctrl) (c : Client) → IsTold c → IsTold (on_ctrl_received ctrl c)
unfolding on_ctrl_received set_lock acquire_lock release_lock
on_ctrl_received-IsTold ctrl c t = ground arith

abbrev pub IsTold-IsKept : IsKept IsTold
IsTold-IsKept = record {
  by_demand = λ ok c t. t;
  by_type = λ type c t. t;
  by_opening = λ sap name c t. t;
  by_port = λ c t. t;
  by_start = λ c t. t;
  by_update = update-IsTold;
  by_deliver = deliver_buffer_to_client-IsTold;
  by_stop = stop-IsTold;
}
