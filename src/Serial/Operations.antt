-- ===== src/Serial/Operations.antt =====
-- SerialPortHandler.cpp: what the clients, the collection, the port and the protocol call. The calls of
-- the protocol on the handler are carried out after the operation that makes them, in their order.
use hdlcd.Base.{
  ℕ, ◌+◌, ◌-◌, Bool, true, false, not, ◌||◌, ◌&&◌, ◌==◌, List, [], ◌∷◌, ◌++◌, Option, none, some,
  if◌then◌else◌, length, drop,
}
use hdlcd.Lock.{suspend_serial_port, resume_serial_port, get_serial_port_state}
use hdlcd.Hdlc.AliveState.{is_alive}
use hdlcd.Hdlc.ProtocolState.{
  BufferType, Protocol, Action, deliver_buffer_to_clients, propagate_serial_port_state,
  transmit_hdlc_frame, query_for_payload, empty,
}
use hdlcd.Hdlc.ProtocolState
use hdlcd.Hdlc.ProtocolState.Operations.{
  initial, start, stop, shutdown, send_payload, trigger_next_hdlc_frame, add_received_raw_bytes,
  timer_expired, alive_state_timer_expired, alive_probe_timer_expired,
}
use hdlcd.Serial.{
  get_baud_rate, toggle_baud_rate, Entry, PortCall, open_port, cancel_port, close_port, read_some,
  set_baud_rate, write_some, deregister_port, update_client, deliver_to_client, query_client,
  stop_client, Handler, demand, call, subscribe, subscribe_all, live, some_expired,
}

-- The call of every client, the first one first.
abbrev pub call_each : (ℕ → PortCall) → List Entry → List PortCall → List PortCall
call_each f [] calls = calls
call_each f (e ∷ es) calls = call_each f es (f e.client ∷ calls)

-- ForEachHdlcdServerHandler. Outdated entries go unless the call is a cyclic one.
unfoldable pub for_each_client : (ℕ → PortCall) → Handler → Handler
unfolding subscribe_all
for_each_client f h =
    let called = record h { calls = call_each f (live h.clients) h.calls } in
    if not h.cyclic_call_guard && some_expired h.clients
    then record called {
      clients = live h.clients;
      subscribers = subscribe_all (live h.clients) (λ type. 0);
    }
    else called

-- Without a protocol the first client to tell is a call through an empty pointer.
unfoldable pub propagate_in : Option Protocol → Handler → Handler
unfolding for_each_client
propagate_in none h =
    for_each_client (λ client. update_client client false h.nbr_of_locks)
      (demand (empty (live h.clients)) h)
propagate_in (some p) h =
    for_each_client (λ client. update_client client (is_alive p.alive) h.nbr_of_locks) h

unfoldable pub propagate_state : Handler → Handler
unfolding propagate_in
propagate_state h = propagate_in h.protocol h

unfoldable pub deliver_to_clients :
    BufferType → List ℕ → (reliable invalid was_sent : Bool) → Handler → Handler
unfolding for_each_client
deliver_to_clients type payload reliable invalid was_sent h =
    for_each_client (λ client. deliver_to_client client type payload reliable invalid was_sent) h

abbrev pub requires_buffer_type : Handler → BufferType → Bool
requires_buffer_type h type = not (h.subscribers type == 0)

-- set_option throws if the port is not open.
unfoldable pub change_baud_rate : Handler → Handler
unfolding toggle_baud_rate get_baud_rate
change_baud_rate h =
    if h.registered
    then (let index = toggle_baud_rate h.current_baudrate_index in
        call (set_baud_rate (get_baud_rate index))
          (record (demand h.port_open h) { current_baudrate_index = index }))
    else h

-- The operations of the port are asynchronous: on a port that has been closed meanwhile they end with an
-- error code, and it is no failure to start one.
unfoldable pub do_write : Handler → Handler
do_write h =
    call (write_some (drop h.send_buffer_offset h.send_buffer)) (record h { writing = true })

unfoldable pub do_read : Handler → Handler
do_read h = call read_some (record h { reading = h.reading + 1 })

unfoldable pub transmit_frame : List ℕ → Handler → Handler
unfolding do_write
transmit_frame bytes h =
    do_write
      (record (demand (h.send_buffer_offset == 0 && not (get_serial_port_state h.nbr_of_locks)) h) {
        send_buffer = bytes;
      })

unfoldable pub query_clients : Bool → Bool → Handler → Handler
unfolding for_each_client
query_clients reliable unreliable h =
    for_each_client (λ client. query_client client reliable unreliable) h

unfoldable pub perform : Action → Handler → Handler
unfolding deliver_to_clients change_baud_rate propagate_state transmit_frame query_clients
perform (deliver_buffer_to_clients type payload reliable invalid was_sent) h =
    deliver_to_clients type payload reliable invalid was_sent h
perform ProtocolState.change_baud_rate h = change_baud_rate h
perform propagate_serial_port_state h = propagate_state h
perform (transmit_hdlc_frame bytes) h = transmit_frame bytes h
perform (query_for_payload reliable unreliable) h = query_clients reliable unreliable h

unfoldable pub perform_all : List Action → Handler → Handler
unfolding perform
perform_all [] h = h
perform_all (a ∷ actions) h = perform_all actions (perform a h)

-- A call through `m_ProtocolState`, with what the protocol calls in turn.
unfoldable pub drive_protocol : (Protocol → Protocol) → Option Protocol → Handler → Handler
unfolding perform_all
drive_protocol operation none h = demand false h
drive_protocol operation (some p) h =
    let q = operation (record p { emitted = [] }) in
    perform_all q.emitted (record h { protocol = some q; failed = h.failed || q.failed })

unfoldable pub drive : (Protocol → Protocol) → Handler → Handler
unfolding drive_protocol
drive operation h = drive_protocol operation h.protocol h

-- IsRunning of the protocol.
abbrev pub is_running : Option Protocol → Bool
is_running none = false
is_running (some p) = p.started

unfoldable pub add_client : Entry → Handler → Handler
unfolding subscribe propagate_state
add_client e h =
    let added = record h {
      subscribers = subscribe e.type h.subscribers;
      clients = h.clients ++ e ∷ [];
    } in
    if is_running h.protocol then propagate_state added else added

unfoldable pub deliver_payload_to_hdlc : List ℕ → Bool → Handler → Handler
unfolding drive send_payload
deliver_payload_to_hdlc payload reliable h =
    drive (send_payload (requires_buffer_type h) payload reliable) h

-- The end of Stop and of a failed OpenSerialPort.
unfoldable pub give_up : Handler → Handler
unfolding drive shutdown for_each_client
give_up h =
    let down = drive shutdown h in
    for_each_client (λ client. stop_client client)
      (if down.collection then call deregister_port down else down)

-- cancel throws if the port is not open, and then nothing that follows is done.
unfoldable pub cancel_and_close : (Handler → Handler) → Handler → Handler
cancel_and_close continue h =
    let cancelled = call cancel_port h in
    if h.port_open
    then continue (record (call close_port cancelled) { port_open = false })
    else demand false cancelled

unfoldable pub stop_handler : Handler → Handler
unfolding cancel_and_close give_up
stop_handler h =
    if h.registered then cancel_and_close give_up (record h { registered = false }) else h

-- OpenSerialPort with its result; `opens` tells whether the port can be opened and set up:
-- a port that opens but cannot be set up counts as one that did not open.
unfoldable pub open_serial_port : (opens : Bool) → Handler → Handler × Bool
unfolding get_baud_rate drive start do_read propagate_state give_up
open_serial_port true h =
    let opened =
      call (set_baud_rate (get_baud_rate h.current_baudrate_index))
        (call open_port (record h { port_open = true })) in
    (propagate_state (do_read (drive (start (requires_buffer_type h)) opened)), true)
open_serial_port false h = (give_up (record h { registered = false }), false)

unfoldable pub start_handler : (opens : Bool) → Handler → Handler × Bool
unfolding initial open_serial_port
start_handler opens h = open_serial_port opens (record h { protocol = some initial })

unfoldable pub suspend_port : Handler → Handler
unfolding suspend_serial_port drive stop cancel_and_close propagate_state
suspend_port h =
    if not h.registered
    then h
    else (let (nbr_of_locks, suspended) = suspend_serial_port h.nbr_of_locks in
        let locked = record h { nbr_of_locks = nbr_of_locks } in
        if suspended
        then cancel_and_close propagate_state (drive stop locked)
        else propagate_state locked)

unfoldable pub resume_port : (opens : Bool) → Handler → Handler
unfolding resume_serial_port open_serial_port propagate_state
resume_port opens h =
    if not h.registered
    then h
    else (let (nbr_of_locks, resumed) = resume_serial_port h.nbr_of_locks in
        let unlocked = record h { nbr_of_locks = nbr_of_locks } in
        if resumed then (open_serial_port opens unlocked).0 else propagate_state unlocked)

-- The end of an asynchronous operation: it failed, or so many bytes were read or written.
pub data Outcome {ℓ} (A : Type ℓ) : Type ℓ where
  error_code : Outcome A
  done : (result : A) → Outcome A

unfoldable pub on_read : Outcome (List ℕ) → Handler → Handler
unfolding drive add_received_raw_bytes do_read stop_handler
on_read (done bytes) h =
    let read = record h { reading = h.reading - 1 } in
    let handled = drive (add_received_raw_bytes (requires_buffer_type h) bytes) read in
    if not (get_serial_port_state handled.nbr_of_locks) then do_read handled else handled
on_read error_code h =
    let read = record h { reading = h.reading - 1 } in
    if not (get_serial_port_state h.nbr_of_locks) then stop_handler read else read

unfoldable pub on_written : Outcome ℕ → Handler → Handler
unfolding drive trigger_next_hdlc_frame do_write stop_handler
on_written (done bytes_sent) h =
    let offset = h.send_buffer_offset + bytes_sent in
    let written = record h { writing = false; send_buffer_offset = offset } in
    let unlocked = not (get_serial_port_state h.nbr_of_locks) in
    if offset == length h.send_buffer
    then (let complete = record written { send_buffer_offset = 0 } in
        if unlocked
        then drive (trigger_next_hdlc_frame (requires_buffer_type h)) complete
        else complete)
    else if unlocked
    then do_write written
    else written
on_written error_code h =
    let written = record h { writing = false } in
    if not (get_serial_port_state h.nbr_of_locks) then stop_handler written else written

-- The timers of the protocol.
unfoldable pub on_timer : Handler → Handler
unfolding drive timer_expired
on_timer h = drive (timer_expired (requires_buffer_type h)) h

unfoldable pub on_alive_state_timer : Handler → Handler
unfolding drive alive_state_timer_expired
on_alive_state_timer h = drive alive_state_timer_expired h

unfoldable pub on_alive_probe_timer : Handler → Handler
unfolding drive alive_probe_timer_expired
on_alive_probe_timer h = drive (alive_probe_timer_expired (requires_buffer_type h)) h
