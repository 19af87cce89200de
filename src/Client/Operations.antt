-- ===== src/Client/Operations.antt =====
-- HdlcdServerHandler.cpp: what the collection, the serial port and the endpoints call. The calls come
-- back to the client only from GetSerialPortHandler and from calls that an operation ends with; the
-- former are an argument of `on_frame`, the latter are later operations.
use hdlcd.Base.{
  ℕ, bit_and, Bool, true, false, not, ◌||◌, ◌&&◌, ◌==◌, List, [], ◌∷◌, Option, none, some,
  if◌then◌else◌,
}
use hdlcd.Hdlc.ProtocolState.{
  BufferType, buffer_type_raw, buffer_type_dissected, buffer_type_payload, buffer_type_port_status,
}
use hdlcd.Lock.{acquire_lock, release_lock, update_lock_state, update_alive_state}
use hdlcd.Client.{
  same_type, Packet, Ctrl, ctrl_type_port_status, ctrl_type_echo, ctrl_type_port_kill,
  ctrl_type_other, SessionHeader, start_frame_endpoint, shutdown_frame_endpoint,
  close_frame_endpoint, start_packet_endpoint, close_packet_endpoint, trigger_next_data_packet,
  send_data, send_port_status, send_echo, register_handler, deregister_handler, get_port,
  deliver_payload, propagate_port_state, suspend_port, resume_port, stop_port, Client, demand, call,
  call_packet_endpoint, call_port,
}

unfoldable pub deliver_buffer_to_client :
    BufferType → List ℕ → (reliable invalid was_sent : Bool) → Client → Client
deliver_buffer_to_client type payload reliable invalid was_sent c =
    let of_interest = same_type type c.buffer_type in
    let wanted =
      if (was_sent && not c.deliver_sent) || (not was_sent && not c.deliver_rcvd)
      then false
      else of_interest in
    let deliver = if not c.deliver_invalid_data && invalid then false else wanted in
    if deliver then call_packet_endpoint (send_data payload reliable invalid was_sent) c else c

unfoldable pub update_serial_port_state : Bool → ℕ → Client → Client
unfolding update_alive_state update_lock_state
update_serial_port_state alive lock_holders c =
    let (alive_guard, alive_changed) = update_alive_state c.alive_guard alive in
    let (lock_guard, lock_changed) = update_lock_state lock_holders c.lock_guard in
    let changed = (c.deliver_initial_state || alive_changed) || lock_changed in
    let d = record c {
      deliver_initial_state = false;
      alive_guard = alive_guard;
      lock_guard = lock_guard;
    } in
    if changed
    then call_packet_endpoint
        (send_port_status alive_guard lock_guard.locked_by_others lock_guard.locked_by_self) d
    else d

-- A pending packet of a kind that the serial port accepts.
abbrev pub suits : Bool → Bool → Packet → Bool
suits query_reliable query_unreliable packet =
    (query_reliable && packet.reliable) || (query_unreliable && not packet.reliable)

unfoldable pub query_pending : Bool → Bool → Option Packet → Client → Client
query_pending query_reliable query_unreliable none c =
    call_packet_endpoint trigger_next_data_packet (record c { awaits_packet = true })
query_pending query_reliable query_unreliable (some packet) c =
    if suits query_reliable query_unreliable packet
    then call_packet_endpoint trigger_next_data_packet
        (record (call_port (deliver_payload packet) c) { pending = none })
    else c

unfoldable pub query_for_payload : Bool → Bool → Client → Client
unfolding query_pending
query_for_payload query_reliable query_unreliable c =
    let d = demand (query_reliable || query_unreliable) c in
    if not d.registered then d else query_pending query_reliable query_unreliable d.pending d

-- Start, with the collection of serial ports given.
unfoldable pub start : Client → Client
start c =
    let d = demand (not c.registered) c in
    let e =
      if d.collection
      then call register_handler (record d { registered = true; awaits_packet = true })
      else demand false d in
    call start_frame_endpoint (demand e.frame_endpoint e)

unfoldable pub close_endpoint : Client → Client
close_endpoint c =
    if c.packet_endpoint
    then record (call close_packet_endpoint (demand (not c.frame_endpoint) c)) {
      packet_endpoint = false;
    }
    else record (call close_frame_endpoint
        (call shutdown_frame_endpoint (demand c.frame_endpoint c))) { frame_endpoint = false }

unfoldable pub stop : Client → Client
unfolding close_endpoint
stop c =
    let d = record c { serial_port_handler = false } in
    if d.registered
    then (let e = close_endpoint (record d { registered = false; awaits_packet = false }) in
        if e.collection then call deregister_handler e else e)
    else d

-- The kind of session, and none for the kinds that are rejected.
unfoldable pub session_type : ℕ → Option BufferType
session_type sap =
    let kind = bit_and sap 0xF0 in
    if kind == 0x00
    then some buffer_type_payload
    else if kind == 0x10
    then some buffer_type_port_status
    else if kind == 0x20
    then some buffer_type_payload
    else if kind == 0x30
    then some buffer_type_raw
    else if kind == 0x40
    then some buffer_type_dissected
    else none

abbrev pub bit_is_set : ℕ → ℕ → Bool
bit_is_set sap mask = not (bit_and sap mask == 0)

-- A call of the port: UpdateSerialPortState or DeliverBufferToClient.
pub data Message : Type 0 where
  port_state : (alive : Bool) (lock_holders : ℕ) → Message
  port_buffer : (type : BufferType) (payload : List ℕ) (reliable invalid was_sent : Bool) → Message

-- What GetSerialPortHandler does: the port makes some calls, such as those for the first probe of a port
-- that is new, and is returned, and its PropagateSerialPortState makes one more; or it calls Stop and
-- returns nothing.
pub data Answer : Type 0 where
  obtained : (messages : List Message) (alive : Bool) (lock_holders : ℕ) → Answer
  refused : Answer

unfoldable pub updated_by : List Message → Client → Client
unfolding update_serial_port_state deliver_buffer_to_client
updated_by [] c = c
updated_by (port_state alive lock_holders ∷ messages) c =
    updated_by messages (update_serial_port_state alive lock_holders c)
updated_by (port_buffer type payload reliable invalid was_sent ∷ messages) c =
    updated_by messages (deliver_buffer_to_client type payload reliable invalid was_sent c)

-- Init of the guard and the call of PropagateSerialPortState.
abbrev pub with_port : Client → Client
with_port c =
    call_port propagate_port_state
      (record (demand (not c.lock_guard.locked_by_self && not c.lock_guard.locked_by_others) c) {
        serial_port_handler = true;
        guard_attached = true;
      })

-- From the call of GetSerialPortHandler on.
unfoldable pub attach : Answer → Client → Client
unfolding updated_by update_serial_port_state stop
attach refused c = stop c
attach (obtained messages alive lock_holders) c =
    call_packet_endpoint start_packet_endpoint
      (update_serial_port_state alive lock_holders (with_port (updated_by messages c)))

unfoldable pub open_session : ℕ → List ℕ → Answer → Option BufferType → Client → Client
unfolding attach stop
open_session sap name answer none c = stop c
open_session sap name answer (some type) c =
    let d = record c { buffer_type = some type } in
    if bit_is_set sap 0x08
    then stop d
    else attach answer (
        call (get_port name) (record d {
          deliver_invalid_data = bit_is_set sap 0x04;
          deliver_sent = bit_is_set sap 0x02;
          deliver_rcvd = bit_is_set sap 0x01;
          packet_endpoint = true;
          frame_endpoint = false;
        }))

-- OnFrame, whose result is false in each case; `none` is a frame that is no session header.
unfoldable pub on_frame : Option SessionHeader → Answer → Client → Client
unfolding open_session session_type stop
on_frame frame answer c =
    let d = demand (c.frame_endpoint && not c.packet_endpoint) c in
    elim frame [
      | none ↦ stop (demand false d)
      | some header ↦
          let sap = header.service_access_point_specifier in
          open_session sap header.serial_port_name answer (session_type sap) d
    ]

-- The result tells the endpoint whether to go on receiving.
unfoldable pub on_data_received : Packet → Client → Client × Bool
on_data_received packet c =
    let d = record (demand (elim c.pending [ none ↦ true | some p ↦ false ]) c) {
      pending = some packet;
    } in
    if d.awaits_packet
    then (
      record (call_port (deliver_payload packet) (record d { awaits_packet = false })) {
        pending = none;
      },
      true,
    )
    else (d, false)

-- AcquireLock and ReleaseLock of the guard, which calls its port when the lock changes. The counter
-- stands with the port; the guard does not read it.
unfoldable pub set_lock : Bool → Client → Client
unfolding acquire_lock release_lock
set_lock true c =
    let d = record c { lock_guard = (acquire_lock c.lock_guard 0).0 } in
    if c.lock_guard.locked_by_self then d else call suspend_port (demand c.guard_attached d)
set_lock false c =
    let d = record c { lock_guard = (release_lock c.lock_guard 0).0 } in
    if c.lock_guard.locked_by_self then call resume_port (demand c.guard_attached d) else d

unfoldable pub on_ctrl_received : Ctrl → Client → Client
unfolding set_lock
on_ctrl_received (ctrl_type_port_status desired_lock_state) c = set_lock desired_lock_state c
on_ctrl_received ctrl_type_echo c = call_packet_endpoint send_echo c
on_ctrl_received ctrl_type_port_kill c = call_port stop_port c
on_ctrl_received ctrl_type_other c = c

unfoldable pub on_closed : Client → Client
unfolding stop
on_closed c = stop c
