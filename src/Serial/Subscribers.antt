-- ===== src/Serial/Subscribers.antt =====
-- SerialPortHandler.cpp, ForEachHdlcdServerHandler and RequiresBufferType: the count of subscribers.
use hdlcd.Base.{
  ℕ, ◌+◌, ◌-◌, ◌<◌, ◌≤◌, ◌%◌, ◌^◌, ◌≡◌, ◌↔◌, sym, ap, ◌∙◌, Bool, true, false, not, ◌==◌, List, [],
  ◌∷◌, ◌++◌, some, arith, if◌then◌else◌, length,
}
use hdlcd.Lock.{suspend_serial_port, resume_serial_port, get_serial_port_state}
use hdlcd.Hdlc.ProtocolState.{BufferType}
use hdlcd.Hdlc.ProtocolState.Operations.{
  initial, start, stop, shutdown, trigger_next_hdlc_frame, add_received_raw_bytes, send_payload,
  timer_expired, alive_state_timer_expired, alive_probe_timer_expired,
}
use hdlcd.Serial.{
  open_port, set_baud_rate, get_baud_rate, deregister_port, call, Entry, Handler, new_handler,
  subscribe,
}
use hdlcd.Serial.Operations.{
  propagate_state, requires_buffer_type, do_write, do_read, drive, is_running, add_client,
  deliver_payload_to_hdlc, give_up, cancel_and_close, stop_handler, open_serial_port, start_handler,
  suspend_port, resume_port, Outcome, error_code, done, on_read, on_written, on_timer,
  on_alive_state_timer, on_alive_probe_timer,
}
use hdlcd.Serial.Stopping.{closing}
use hdlcd.Serial.{demand, cancel_port}
use hdlcd.Serial.Counting.{
  count, IsCounted, count-append, subscribe-count, if-IsCounted, for_each_client-IsCounted,
  propagate_state-IsCounted, drive-IsCounted,
}
use hdlcd.Serial.Reachable.{
  first_start, HandlerStep, add_step, expire_step, payload_step, suspend_step, resume_step,
  stop_step, read_step, write_step, timer_step, state_timer_step, probe_timer_step,
  IsReachableHandler, first_client, and_then,
}

give_up-IsCounted : (h : Handler) → IsCounted h → IsCounted (give_up h)
unfolding give_up
give_up-IsCounted h c =
    let down = drive shutdown h in
    for_each_client-IsCounted _ (if down.collection then call deregister_port down else down) (
      if-IsCounted down.collection (call deregister_port down) down (drive-IsCounted shutdown h c)
        (drive-IsCounted shutdown h c))

cancel_and_close-IsCounted :
    (continue : Handler → Handler) (h : Handler)
    → ((k : Handler) → IsCounted k → IsCounted (continue k))
    → IsCounted h
    → IsCounted (cancel_and_close continue h)
unfolding cancel_and_close
cancel_and_close-IsCounted continue h keeps c =
    if-IsCounted h.port_open (continue (closing h)) (demand false (call cancel_port h))
      (keeps (closing h) c) c

stop_handler-IsCounted : (h : Handler) → IsCounted h → IsCounted (stop_handler h)
unfolding stop_handler
stop_handler-IsCounted h c =
    let gone = record h { registered = false } in
    if-IsCounted h.registered (cancel_and_close give_up gone) h
      (cancel_and_close-IsCounted give_up gone give_up-IsCounted c) c

open_serial_port-IsCounted :
    (opens : Bool) (h : Handler) → IsCounted h → IsCounted (open_serial_port opens h).0
unfolding open_serial_port do_read
open_serial_port-IsCounted false h c = give_up-IsCounted (record h { registered = false }) c
open_serial_port-IsCounted true h c =
    let opened =
      call (set_baud_rate (get_baud_rate h.current_baudrate_index))
        (call open_port (record h { port_open = true })) in
    propagate_state-IsCounted (do_read (drive (start (requires_buffer_type h)) opened))
      (drive-IsCounted (start (requires_buffer_type h)) opened c)

add_client-IsCounted : (e : Entry) (h : Handler) → IsCounted h → IsCounted (add_client e h)
unfolding add_client
add_client-IsCounted e h c =
    let added = record h {
      subscribers = subscribe e.type h.subscribers;
      clients = h.clients ++ e ∷ [];
    } in
    let counted : IsCounted added = λ type. omega (
      arith,
      subscribe-count e.type type h.subscribers _ (c type),
      count-append type h.clients (e ∷ []),
    ) in
    if-IsCounted (is_running h.protocol) (propagate_state added) added
      (propagate_state-IsCounted added counted) counted

suspend_port-IsCounted : (h : Handler) → IsCounted h → IsCounted (suspend_port h)
unfolding suspend_port suspend_serial_port
suspend_port-IsCounted h c =
    let next = (h.nbr_of_locks + 1) % 2 ^ 64 in
    let locked = record h { nbr_of_locks = next } in
    let closed = cancel_and_close propagate_state (drive stop locked) in
    if-IsCounted (not h.registered) h (if next == 1 then closed else propagate_state locked) c (
      if-IsCounted (next == 1) closed (propagate_state locked)
        (cancel_and_close-IsCounted propagate_state (drive stop locked) propagate_state-IsCounted
          (drive-IsCounted stop locked c))
        (propagate_state-IsCounted locked c))

resume_port-IsCounted : (opens : Bool) (h : Handler) → IsCounted h → IsCounted (resume_port opens h)
unfolding resume_port resume_serial_port
resume_port-IsCounted opens h c =
    let next = (h.nbr_of_locks + (2 ^ 64 - 1)) % 2 ^ 64 in
    let unlocked = record h { nbr_of_locks = next } in
    if-IsCounted (not h.registered) h
      (if next == 0 then (open_serial_port opens unlocked).0 else propagate_state unlocked) c
      (if-IsCounted (next == 0) (open_serial_port opens unlocked).0 (propagate_state unlocked)
        (open_serial_port-IsCounted opens unlocked c) (propagate_state-IsCounted unlocked c))

on_read-IsCounted :
    (outcome : Outcome (List ℕ)) (h : Handler) → IsCounted h → IsCounted (on_read outcome h)
unfolding on_read do_read
on_read-IsCounted (done bytes) h c =
    let read = record h { reading = h.reading - 1 } in
    let operation = add_received_raw_bytes (requires_buffer_type h) bytes in
    let handled = drive operation read in
    let counted = drive-IsCounted operation read c in
    if-IsCounted (not (get_serial_port_state handled.nbr_of_locks)) (do_read handled) handled
      counted counted
on_read-IsCounted error_code h c =
    let read = record h { reading = h.reading - 1 } in
    if-IsCounted (not (get_serial_port_state h.nbr_of_locks)) (stop_handler read) read
      (stop_handler-IsCounted read c) c

on_written-IsCounted :
    (outcome : Outcome ℕ) (h : Handler) → IsCounted h → IsCounted (on_written outcome h)
unfolding on_written do_write
on_written-IsCounted (done bytes_sent) h c =
    let offset = h.send_buffer_offset + bytes_sent in
    let written = record h { writing = false; send_buffer_offset = offset } in
    let complete = record written { send_buffer_offset = 0 } in
    let operation = trigger_next_hdlc_frame (requires_buffer_type h) in
    let unlocked = not (get_serial_port_state h.nbr_of_locks) in
    if-IsCounted (offset == length h.send_buffer)
      (if unlocked then drive operation complete else complete)
      (if unlocked then do_write written else written)
      (if-IsCounted unlocked (drive operation complete) complete
        (drive-IsCounted operation complete c) c)
      (if-IsCounted unlocked (do_write written) written c c)
on_written-IsCounted error_code h c =
    let written = record h { writing = false } in
    if-IsCounted (not (get_serial_port_state h.nbr_of_locks)) (stop_handler written) written
      (stop_handler-IsCounted written c) c

-- An entry that expires is counted until the list is swept.
expired-count :
    (type : BufferType) (before after : List Entry) (e : Entry)
    → count type (before ++ record e { expired = true } ∷ after) ≡ count type (before ++ e ∷ after)
expired-count type before after e =
    count-append type before (record e { expired = true } ∷ after)
    ∙ sym (count-append type before (e ∷ after))

HandlerStep-IsCounted : {h k : Handler} → HandlerStep h k → IsCounted h → IsCounted k
unfolding deliver_payload_to_hdlc on_timer on_alive_state_timer on_alive_probe_timer
HandlerStep-IsCounted (add_step e h) c = add_client-IsCounted e h c
HandlerStep-IsCounted (expire_step before after e h listed) c = λ type.
    c type
    ∙ ap (λ n. n % 2 ^ 64)
        (ap (λ es. count type es) listed ∙ sym (expired-count type before after e))
HandlerStep-IsCounted (payload_step payload reliable h) c =
    drive-IsCounted (send_payload (requires_buffer_type h) payload reliable) h c
HandlerStep-IsCounted (suspend_step h room waits) c = suspend_port-IsCounted h c
HandlerStep-IsCounted (resume_step opens h some_lock) c = resume_port-IsCounted opens h c
HandlerStep-IsCounted (stop_step h unlocked) c = stop_handler-IsCounted h c
HandlerStep-IsCounted (read_step outcome h pending) c = on_read-IsCounted outcome h c
HandlerStep-IsCounted (write_step outcome h pending) c = on_written-IsCounted outcome h c
HandlerStep-IsCounted (timer_step h) c =
    drive-IsCounted (timer_expired (requires_buffer_type h)) h c
HandlerStep-IsCounted (state_timer_step h) c = drive-IsCounted alive_state_timer_expired h c
HandlerStep-IsCounted (probe_timer_step h) c =
    drive-IsCounted (alive_probe_timer_expired (requires_buffer_type h)) h c

first_start-IsCounted : (opens : Bool) (e : Entry) → IsCounted (first_start opens e)
unfolding start_handler new_handler
first_start-IsCounted opens e =
    open_serial_port-IsCounted opens (record (add_client e new_handler) { protocol = some initial })
      (add_client-IsCounted e new_handler (λ type. omega arith))

reachable-IsCounted : (h : Handler) → IsReachableHandler h → IsCounted h
reachable-IsCounted _ (first_client opens e) = first_start-IsCounted opens e
reachable-IsCounted _ (and_then {h = h} r step) =
    HandlerStep-IsCounted step (reachable-IsCounted h r)

count-le : (type : BufferType) (es : List Entry) → count type es ≤ length es
count-le type [] = omega arith
count-le type (e ∷ es) = ground (arith, count-le type es)

-- In every reachable state of a port with fewer than 2 ^ 64 clients in its list, RequiresBufferType
-- says yes to exactly the types that some entry of the list has asked for, whether or not the list has
-- been swept since a client has gone.
pub subscribers_are_counted :
    (h : Handler) (type : BufferType)
    → IsReachableHandler h
    → length h.clients < 2 ^ 64
    → (h.subscribers type ≡ count type h.clients)
      × ((requires_buffer_type h type ≡ true) ↔ (0 < count type h.clients))
subscribers_are_counted h type r few =
    let exact : h.subscribers type ≡ count type h.clients =
      omega (arith, reachable-IsCounted h r type, count-le type h.clients, few) in
    (
      exact,
      ((λ asks. ground (arith, exact, asks)), λ some_entry. ground (arith, exact, some_entry)),
    )
