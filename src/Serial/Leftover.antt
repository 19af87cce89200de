-- ===== src/Serial/Leftover.antt =====
-- SerialPortHandler.cpp: what is left of a frame that was half written when the port was locked.
use hdlcd.Base.{
  if_off, ℕ, ◌+◌, ◌<◌, ◌≡◌, refl, ap, ◌∙◌, true, false, not, ◌==◌, List, [], ◌∷◌, Option, none,
  some, arith, length,
}
use hdlcd.Lock.{get_serial_port_state, resume_serial_port}
use hdlcd.Hdlc.ProtocolState
use hdlcd.Hdlc.ProtocolState.{
  Protocol, Action, deliver_buffer_to_clients, propagate_serial_port_state, transmit_hdlc_frame,
  query_for_payload, empty,
}
use hdlcd.Hdlc.AliveState.{is_alive}
use hdlcd.Hdlc.ProtocolState.Operations.{start}
use hdlcd.Hdlc.ProtocolState.Ledger.{transmits}
use hdlcd.Hdlc.ProtocolState.FirstProbe.{start-transmits}
use hdlcd.Serial.{
  PortCall, open_port, set_baud_rate, get_baud_rate, update_client, deliver_to_client, query_client,
  Handler, call, demand, live,
}
use hdlcd.Serial.Operations.{
  for_each_client, propagate_in, propagate_state, deliver_to_clients, change_baud_rate, do_write,
  do_read, transmit_frame, query_clients, perform, perform_all, requires_buffer_type, drive,
  open_serial_port, resume_port, done, on_written,
}
use hdlcd.Serial.Core.{for_each_client-core}
use hdlcd.Serial.Fit.{cleared, returned, drive_as}

-- A call of the protocol leaves the offset alone, and what has failed stays failed.
abbrev Stays : Handler → Handler → Type 0
Stays h k = (k.send_buffer_offset ≡ h.send_buffer_offset) × (h.failed ≡ true → k.failed ≡ true)

for_each_client-Stays : (f : ℕ → PortCall) (h : Handler) → Stays h (for_each_client f h)
for_each_client-Stays f h =
    let e = for_each_client-core f h in
    (ap (λ c. c.send_buffer_offset) e, λ bad. ap (λ c. c.failed) e ∙ bad)

propagate_in-Stays : (o : Option Protocol) (h : Handler) → Stays h (propagate_in o h)
unfolding propagate_in
propagate_in-Stays none h =
    let (e, stays) =
      for_each_client-Stays (λ client. update_client client false h.nbr_of_locks)
        (demand (empty (live h.clients)) h) in
    (e, λ bad. stays (ground (arith, bad)))
propagate_in-Stays (some p) h =
    for_each_client-Stays (λ client. update_client client (is_alive p.alive) h.nbr_of_locks) h

change_baud_rate-Stays : (h : Handler) → Stays h (change_baud_rate h)
unfolding change_baud_rate
change_baud_rate-Stays h = (ground arith, λ bad. ground (arith, bad))

perform-Stays : (a : Action) (h : Handler) → Stays h (perform a h)
unfolding perform deliver_to_clients query_clients propagate_state transmit_frame do_write
perform-Stays (deliver_buffer_to_clients type payload reliable invalid was_sent) h =
    for_each_client-Stays
      (λ client. deliver_to_client client type payload reliable invalid was_sent) h
perform-Stays ProtocolState.change_baud_rate h = change_baud_rate-Stays h
perform-Stays propagate_serial_port_state h = propagate_in-Stays h.protocol h
perform-Stays (transmit_hdlc_frame bytes) h = (refl, λ bad. ground (arith, bad))
perform-Stays (query_for_payload reliable unreliable) h =
    for_each_client-Stays (λ client. query_client client reliable unreliable) h

perform_all-failed :
    (actions : List Action) (h : Handler) → h.failed ≡ true → (perform_all actions h).failed ≡ true
unfolding perform_all
perform_all-failed [] h bad = bad
perform_all-failed (a ∷ actions) h bad =
    perform_all-failed actions (perform a h) ((perform-Stays a h).1 bad)

transmit_frame-fails :
    (bytes : List ℕ) (h : Handler)
    → 0 < h.send_buffer_offset
    → (perform (transmit_hdlc_frame bytes) h).failed ≡ true
unfolding perform transmit_frame do_write
transmit_frame-fails bytes h left = ground (arith, left)

-- With a frame among the calls the assertion on the offset fails.
perform_all-fails :
    (actions : List Action) (h : Handler)
    → 0 < h.send_buffer_offset
    → 0 < transmits actions
    → (perform_all actions h).failed ≡ true
unfolding perform_all
perform_all-fails [] h left some_frame = absurd (omega (arith, some_frame))
perform_all-fails (transmit_hdlc_frame bytes ∷ actions) h left some_frame =
    perform_all-failed actions (perform (transmit_hdlc_frame bytes) h)
      (transmit_frame-fails bytes h left)
perform_all-fails (a ∷ actions) h left some_frame =
    perform_all-fails actions (perform a h) (omega (arith, (perform-Stays a h).0, left)) some_frame

-- The port opens again.
reopened-fails :
    (h : Handler) (p : Protocol)
    → h.protocol ≡ some p
    → p.attached ≡ true
    → 0 < h.send_buffer_offset
    → (open_serial_port true h).0.failed ≡ true
unfolding open_serial_port propagate_state do_read
reopened-fails h p has port left =
    let opened =
      call (set_baud_rate (get_baud_rate h.current_baudrate_index))
        (call open_port (record h { port_open = true })) in
    let requires = requires_buffer_type h in
    let q = start requires (cleared p) in
    let started = drive (start requires) opened in
    let bad : started.failed ≡ true =
      ap (λ k. k.failed) (drive_as (start requires) opened p has)
      ∙ perform_all-fails q.emitted (returned opened q) left
          (omega (arith, start-transmits requires (cleared p) port)) in
    (propagate_in-Stays started.protocol (do_read started)).1 bad

-- The callback of a write on a port that is locked.
left_over :
    (n : ℕ) (h : Handler)
    → 0 < h.nbr_of_locks
    → h.send_buffer_offset + n < length h.send_buffer
    → on_written (done n) h
      ≡ record h { writing = false; send_buffer_offset = h.send_buffer_offset + n }
unfolding on_written
left_over n h locked not_last =
    if_off (h.send_buffer_offset + n == length h.send_buffer) _ _ (ground (arith, not_last))
    ∙ if_off (not (get_serial_port_state h.nbr_of_locks)) _ _ (ground (arith, locked))

last_lock :
    (h : Handler)
    → h.registered ≡ true
    → h.nbr_of_locks ≡ 1
    → resume_port true h ≡ (open_serial_port true (record h { nbr_of_locks = 0 })).0
unfolding resume_port resume_serial_port
last_lock h on one = rw (on, one) refl

-- If a part of a frame has been written when the port is locked, and it is not the last, the callback
-- leaves the offset in the middle of that frame, which is no failure yet. When the last lock is given
-- back and the port opens again, the first probe of the protocol meets the offset in TransmitHDLCFrame,
-- and the assertion there fails.
pub locked_write_is_left_over :
    (n : ℕ) (h : Handler) (p : Protocol)
    → h.registered ≡ true
    → h.nbr_of_locks ≡ 1
    → h.protocol ≡ some p
    → p.attached ≡ true
    → 0 < n
    → h.send_buffer_offset + n < length h.send_buffer
    → let k = on_written (done n) h in
      (k.send_buffer_offset ≡ h.send_buffer_offset + n)
      × (k.failed ≡ h.failed)
      × ((resume_port true k).failed ≡ true)
locked_write_is_left_over n h p on one has port some_bytes not_last =
    let k = on_written (done n) h in
    let e = left_over n h (omega (arith, one)) not_last in
    let left = record h { writing = false; send_buffer_offset = h.send_buffer_offset + n } in
    (
      ap (λ x. x.send_buffer_offset) e,
      ap (λ x. x.failed) e,
      ap (λ x. (resume_port true x).failed) e
          ∙ ap (λ x. x.failed) (last_lock left on one)
          ∙ reopened-fails (record left { nbr_of_locks = 0 }) p has port
              (omega (arith, some_bytes)),
    )
